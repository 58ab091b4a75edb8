-- ===== src/Transport/Address/Text/RoundTrip.antt =====
-- Addresses of src/transport/address.cpp that are printed and read back.
use shine.Prelude.{
  ℕ, ◌^◌, ◌≤◌, ◌<◌, ◌≡◌, ◌≢◌, ◌⊎◌, inl, inr, refl, ◌∙◌, ap, List, [], ◌∷◌, ◌++◌, none, some, true,
  false, arith, Bytes, All, Result, ok, ◌==◌, length, get_or, append_assoc, pos, IsBytes,
}
use shine.Absl.{Absl, IsDigit, IsLawful}
use shine.Transport.Address.{Address, from_ipv4, from_ipv6, from_domain}
use shine.Transport.Address.Text.{
  TextLib, join, Lacks, IsReliable, split_first, split_last, number_in, octets, parse_ipv4, host_v6,
  host_v4, with_port, bracketed, unbracketed, parse_host_port, host_text, to_string,
}

split_first-at : (c : ℕ) (h p : Bytes) → Lacks c h → split_first c (h ++ (c ∷ p)) ≡ some (h, p)
unfolding split_first
split_first-at c [] p l = let e : c == c ≡ true = ground arith in rw e refl
split_first-at c (b ∷ h) p l =
    let e : b == c ≡ false = ground (arith, l.0) in rw (e, split_first-at c h p l.1) refl

split_last-none : (c : ℕ) (p : Bytes) → Lacks c p → split_last c p ≡ none
unfolding split_last
split_last-none c [] l = refl
split_last-none c (b ∷ p) l =
    let e : b == c ≡ false = ground (arith, l.0) in rw (split_last-none c p l.1, e) refl

pub split_last-at : (c : ℕ) (h p : Bytes) → Lacks c p → split_last c (h ++ (c ∷ p)) ≡ some (h, p)
unfolding split_last
split_last-at c [] p l = let e : c == c ≡ true = ground arith in rw (split_last-none c p l, e) refl
split_last-at c (b ∷ h) p l = rw (split_last-at c h p l) refl

digits-Lacks : (c : ℕ) (s : Bytes) → (c < b'0') ⊎ (b'9' < c) → All IsDigit s → Lacks c s
digits-Lacks c [] out h = tt
digits-Lacks c (b ∷ s) out h = (
  λ e. elim out [
    | inl low ↦ absurd (omega (arith, e, h.0.0))
    | inr high ↦ absurd (omega (arith, e, h.0.1))
  ],
  digits-Lacks c s out h.1,
)

number_in-pos : (low high n : ℕ) → low ≤ n → n ≤ high → number_in low high (some (pos n)) ≡ some n
number_in-pos low high n h k = ground arith

-- An address that the text of an address can give: four bytes, sixteen bytes, or a name that reads
-- neither as an IPv4 address nor as the start of a bracket, and a port that is not 0.
pub data HasText (lib : TextLib) : Address → Type 0 where
  text_v4 :
      (a b c d port : ℕ)
      → IsBytes (a ∷ b ∷ c ∷ d ∷ [])
      → 0 < port
      → port < 2 ^ 16
      → HasText lib (from_ipv4 (a ∷ b ∷ c ∷ d ∷ []) port)
  text_v6 :
      (b : Bytes) (port : ℕ)
      → length b ≡ 16
      → 0 < port
      → port < 2 ^ 16
      → HasText lib (from_ipv6 b port)
  text_name :
      (d : Bytes) (port : ℕ)
      → get_or d 0 0 ≢ b'['
      → parse_ipv4 lib d ≡ none
      → 0 < port
      → port < 2 ^ 16
      → HasText lib (from_domain d port)

module _ (absl : Absl) (lawful : IsLawful absl) (lib : TextLib)
    (reliable : IsReliable absl lib) where
  -- A port is read back, behind a colon that is the last.
  port_back :
      (port : ℕ) (k : ℕ → Result Address)
      → 0 < port
      → port < 2 ^ 16
      → with_port lib (number_in 1 65535 (lib.simple_atoi_int (absl.str_cat port))) k ≡ k port
  unfolding with_port
  port_back port k some_port small =
      rw
        (
          reliable.simple_atoi_int-str_cat port (omega arith),
          number_in-pos 1 65535 port (omega arith) (omega arith),
        )
        refl

  unbracketed_text :
      (host : Bytes) (port : ℕ)
      → get_or host 0 0 ≢ b'['
      → parse_host_port lib (host ++ (b':' ∷ absl.str_cat port))
        ≡ unbracketed lib (split_last b':' (host ++ (b':' ∷ absl.str_cat port)))
  unfolding parse_host_port
  unbracketed_text [] port h = refl
  unbracketed_text (b ∷ host) port h = let e : b == b'[' ≡ false = ground (arith, h) in rw e refl

  host_back :
      (host : Bytes) (port : ℕ)
      → get_or host 0 0 ≢ b'['
      → 0 < port
      → port < 2 ^ 16
      → parse_host_port lib (host ++ (b':' ∷ absl.str_cat port))
        ≡ host_v4 lib (parse_ipv4 lib host) host port
  unfolding unbracketed
  host_back host port h some_port small =
      unbracketed_text host port h
      ∙ ap (unbracketed lib) (
          split_last-at b':' host (absl.str_cat port) (
            digits-Lacks b':' (absl.str_cat port) (inr (omega arith))
              (lawful.str_cat-IsDigit port)))
      ∙ port_back port (host_v4 lib (parse_ipv4 lib host) host) some_port small

  octet_back : (n : ℕ) → n < 256 → number_in 0 255 (lib.simple_atoi_int (absl.str_cat n)) ≡ some n
  octet_back n small =
      ap (number_in 0 255) (reliable.simple_atoi_int-str_cat n (omega arith))
      ∙ number_in-pos 0 255 n (omega arith) (omega arith)

  dots-Lacks : (n : ℕ) → Lacks b'.' (absl.str_cat n)
  dots-Lacks n = digits-Lacks b'.' (absl.str_cat n) (inl (omega arith)) (lawful.str_cat-IsDigit n)

  abbrev quad : ℕ → ℕ → ℕ → ℕ → List Bytes
  quad a b c d = absl.str_cat a ∷ absl.str_cat b ∷ absl.str_cat c ∷ absl.str_cat d ∷ []

  quad_back :
      (a b c d : ℕ)
      → IsBytes (a ∷ b ∷ c ∷ d ∷ [])
      → parse_ipv4 lib (join b'.' (quad a b c d)) ≡ some (a ∷ b ∷ c ∷ d ∷ [])
  unfolding parse_ipv4 octets
  quad_back a b c d h =
      rw
        (
          reliable.str_split-join b'.' (absl.str_cat a)
              (absl.str_cat b ∷ absl.str_cat c ∷ absl.str_cat d ∷ [])
              (dots-Lacks a, (dots-Lacks b, (dots-Lacks c, (dots-Lacks d, tt)))),
          octet_back a h.0,
          octet_back b h.1.0,
          octet_back c h.1.1.0,
          octet_back d h.1.1.1.0,
        )
        refl

  front_digit : (s rest : Bytes) → All IsDigit s → get_or (s ++ (b'.' ∷ rest)) 0 0 ≢ b'['
  front_digit [] rest h e = absurd (omega arith)
  front_digit (b ∷ s) rest h e = absurd (omega (arith, h.0.1))

  bracketed_back :
      (b : Bytes) (port : ℕ)
      → length b ≡ 16
      → 0 < port
      → port < 2 ^ 16
      → parse_host_port lib (b'[' ∷ (lib.v6_to_string b ++ (b']' ∷ b':' ∷ absl.str_cat port)))
        ≡ ok (from_ipv6 b port)
  unfolding parse_host_port bracketed host_v6
  bracketed_back b port size some_port small =
      ap (bracketed lib) (
        split_first-at b']' (lib.v6_to_string b) (b':' ∷ absl.str_cat port)
          (reliable.v6_to_string-Lacks b))
      ∙ port_back port (host_v6 lib (lib.make_address_v6 (lib.v6_to_string b))) some_port small
      ∙ ap (λ o. host_v6 lib o port) (reliable.make_address_v6-v6_to_string b size)

  -- An address that can be written as text is read back from what `toString` prints.
  pub parse_host_port-to_string :
      (a : Address) → HasText lib a → parse_host_port lib (to_string absl lib a) ≡ ok a
  unfolding to_string host_text from_ipv4 from_ipv6 from_domain host_v4
  parse_host_port-to_string _ (text_v4 a b c d port fits some_port small) =
      host_back (join b'.' (quad a b c d)) port
        (front_digit (absl.str_cat a) _ (lawful.str_cat-IsDigit a)) some_port small
      ∙ ap (λ o. host_v4 lib o (join b'.' (quad a b c d)) port) (quad_back a b c d fits)
  parse_host_port-to_string _ (text_v6 b port size some_port small) =
      ap (λ t. parse_host_port lib (b'[' ∷ t)) (append_assoc (lib.v6_to_string b) _ _)
      ∙ bracketed_back b port size some_port small
  parse_host_port-to_string _ (text_name d port front not_v4 some_port small) =
      host_back d port front some_port small ∙ ap (λ o. host_v4 lib o d port) not_v4
