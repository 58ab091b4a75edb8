-- ===== src/Inbound/Http.antt =====
-- `HttpConnectInbound::handleClient` of src/inbound/http_connect_inbound.cpp. What a client sends
-- arrives in pieces, as `async_read_some` gives them.
pub mod Exchange
use shine.Prelude.{
  ℕ, List, [], ◌∷◌, ◌++◌, Option, none, some, ◌&&◌, ◌||◌, Bool, true, false, Bytes, codes, bytes_eq,
  Result, ok, err, ◌==◌, if◌then◌else◌,
}
use shine.Transport.Address.{Address}
use shine.Transport.Address.Text.{TextLib, parse_host_port}

abbrev pub starts_with : Bytes → Bytes → Bool
starts_with [] s = true
starts_with (p ∷ prefix) [] = false
starts_with (p ∷ prefix) (b ∷ s) = (p == b) && starts_with prefix s

-- Whether a text occurs in another.
unfoldable pub occurs : Bytes → Bytes → Bool
occurs t [] = starts_with t []
occurs t (b ∷ s) = starts_with t (b ∷ s) || occurs t s

abbrev pub header_end : Bytes
header_end = codes "\r\n\r\n"

-- `async_read_until` with "\r\n\r\n": what the stream buffer then has, which may be more than the
-- header, and the pieces that are still to be read; `none` for an error.
unfoldable pub read_until : Bytes → List Bytes → Option (Bytes × List Bytes)
read_until sb [] = if occurs header_end sb then some (sb, []) else none
read_until sb (piece ∷ pieces) =
    let rest = read_until (sb ++ piece) pieces in
    if occurs header_end sb then some (sb, piece ∷ pieces) else rest

-- `std::getline`, and the `\r` at the end of the line taken off.
unfoldable pub line_of : Bytes → Bytes
line_of [] = []
line_of (b ∷ s) = let rest = line_of s in if b == b'\n' then [] else b ∷ rest

unfoldable pub chomp : Bytes → Bytes
chomp [] = []
chomp (b ∷ []) = if b == b'\r' then [] else b ∷ []
chomp (b ∷ c ∷ s) = b ∷ chomp (c ∷ s)

abbrev pub not_allowed : Bytes
not_allowed = codes "HTTP/1.1 405 Method Not Allowed\r\n\r\n"

abbrev pub bad_request : Bytes
bad_request = codes "HTTP/1.1 400 Bad Request\r\n\r\n"

abbrev pub established : Bytes
established = codes "HTTP/1.1 200 Connection Established\r\n\r\n"

-- What a client gets: nothing, a refusal, a reply that could not be sent, or a reply and a session
-- for a target, of which the stream gives the pieces that were not read yet.
pub data Handled : Type 0 where
  no_header : Handled
  refuses : Bytes → Handled
  cut_off : Handled
  accepts : Bytes → Address → List Bytes → Handled

-- `written` says whether the reply was sent.
unfoldable pub on_target : Bool → List Bytes → Result Address → Handled
on_target written pieces (err status) = refuses bad_request
on_target written pieces (ok target) =
    if written then accepts established target pieces else cut_off

unfoldable pub on_tokens : TextLib → Bool → List Bytes → List Bytes → Handled
on_tokens lib written pieces (method ∷ target ∷ rest) =
    if bytes_eq method (codes "CONNECT")
    then on_target written pieces (parse_host_port lib target)
    else refuses not_allowed
on_tokens lib written pieces _ = refuses not_allowed

unfoldable pub on_header : TextLib → Bool → Option (Bytes × List Bytes) → Handled
on_header lib written none = no_header
on_header lib written (some (sb, pieces)) =
    on_tokens lib written pieces (lib.str_split b' ' (chomp (line_of sb)))

unfoldable pub handle_client : TextLib → Bool → List Bytes → Handled
handle_client lib written pieces = on_header lib written (read_until [] pieces)
