-- ===== src/Examples/Addresses.antt =====
-- Addresses and their binary form.
use shine.Prelude.{◌≡◌, refl, [], ◌∷◌, ◌++◌, Bytes, codes, ok, drop, arith}
use shine.Transport.Address.{Address, from_ipv4, parse_binary, parse_typed, to_binary}
use shine.Transport.Address.Binary.{HasForm, v4, parse_binary-to_binary}
use shine.Transport.Address.Parse.{to_binary-parse_binary}

abbrev local : Address
local = from_ipv4 (127 ∷ 0 ∷ 0 ∷ 1 ∷ []) 8080

parse_binary-to_binary_example : parse_binary (to_binary local ++ codes "x") ≡ ok local
parse_binary-to_binary_example =
    parse_binary-to_binary local (codes "x") (v4 (127 ∷ 0 ∷ 0 ∷ 1 ∷ []) 8080 refl (omega arith))

abbrev local_blob : Bytes
local_blob = 1 ∷ 4 ∷ 127 ∷ 0 ∷ 0 ∷ 1 ∷ 31 ∷ 144 ∷ 9 ∷ []

local_blob_parsed : parse_binary local_blob ≡ ok local
unfolding parse_binary parse_typed
local_blob_parsed = refl

to_binary-parse_binary_example : HasForm local × (local_blob ≡ to_binary local ++ drop 8 local_blob)
to_binary-parse_binary_example =
    to_binary-parse_binary local_blob local (omega arith) local_blob_parsed
