-- ===== src/Transport/Address/Parse.antt =====
-- What `parseBinary` of src/transport/address.cpp accepts.
use shine.Prelude.{
  ℕ, zero, suc, ◌+◌, ◌*◌, ◌%◌, ◌^◌, ◌<◌, ◌≤◌, ◌≡◌, refl, sym, ap, ap₂, subst, ◌∙◌, inl, inr, [],
  ◌∷◌, ◌++◌, arith, Bytes, IsBytes, Result, ok, ◌==◌, Bool-cases, length, get_or, take, drop,
  length-take, take_all, le→ltb_false, take-append-drop,
}
use shine.Transport.Address.{
  Address, from_ipv4, from_ipv6, from_domain, parse_typed, parse_binary, to_binary,
}
use shine.Transport.Address.Binary.{
  HasForm, v4, v6, name, port_high, binary_text, typed_ipv4, typed_ipv6, typed_domain, ipv4_text,
  ipv6_text, domain_text,
}

-- The parts of a blob that is long enough for its length byte.
two_at :
    (s : Bytes) (n : ℕ)
    → n + 2 ≤ length s
    → drop n s ≡ get_or s n 0 ∷ get_or s (n + 1) 0 ∷ drop (n + 2) s
two_at [] n h = absurd (omega arith)
two_at (a ∷ []) zero h = absurd (omega arith)
two_at (a ∷ b ∷ s) zero h = refl
two_at (a ∷ s) (suc n) h =
    two_at s n (omega arith)
    ∙ (let e : suc n + 1 ≡ suc (n + 1) = omega arith in
        let f : suc n + 2 ≡ suc (n + 2) = omega arith in rw (e, f) refl)

-- The two halves of what is shown of an address that was read from given parts.
abbrev HasParts : ℕ → Bytes → ℕ → Address → Type 0
HasParts t d port a =
    HasForm a × (to_binary a ≡ t ∷ length d ∷ (d ++ (port_high port ∷ (port % 256) ∷ [])))

HasParts-subst :
    (t : ℕ) (d : Bytes) (port : ℕ) (r : Result Address) (a₀ a : Address)
    → HasParts t d port a₀
    → r ≡ ok a₀
    → r ≡ ok a
    → HasParts t d port a
HasParts-subst t d port r a₀ a s e h = let same : a₀ ≡ a = cc in subst (HasParts t d port) same s

-- What `parseBinary` builds from a type, bytes and a port has a form, and it is these parts.
typed-HasParts :
    (t : ℕ) (d : Bytes) (rest : Bytes) (port : ℕ) (a : Address)
    → port < 2 ^ 16
    → length d ≤ 255
    → parse_typed t (length d) (t ∷ length d ∷ (d ++ rest)) port ≡ ok a
    → HasParts t d port a
typed-HasParts zero d rest port a fits short h = absurd (unfold parse_typed in cc)
typed-HasParts (suc zero) d rest port a fits short h = elim (Bool-cases (length d == 4)) [
  | inl e ↦
      let size : length d ≡ 4 = ground arith in
      HasParts-subst 1 d port _ (from_ipv4 d port) a (v4 d port size fits, ipv4_text d port size)
        (typed_ipv4 d rest port size) h
  | inr e ↦ absurd (unfold parse_typed in ground arith)
]
typed-HasParts (suc (suc zero)) d rest port a fits short h = elim (Bool-cases (length d == 16)) [
  | inl e ↦
      let size : length d ≡ 16 = ground arith in
      HasParts-subst 2 d port _ (from_ipv6 d port) a (v6 d port size fits, ipv6_text d port size)
        (typed_ipv6 d rest port size) h
  | inr e ↦ absurd (unfold parse_typed in ground arith)
]
typed-HasParts (suc (suc (suc zero))) d rest port a fits short h =
    elim (Bool-cases (length d == 0)) [
      | inl e ↦ absurd (unfold parse_typed in ground arith)
      | inr e ↦
          let pos : 0 < length d = ground arith in
          let whole : take 255 d ≡ d = take_all 255 d short in
          HasParts-subst 3 d port _ (from_domain d port) a
            (name d port pos short fits, rw whole at (domain_text d port))
            (typed_domain d rest port pos) h
    ]
typed-HasParts (suc (suc (suc (suc t)))) d rest port a fits short h =
    absurd (unfold parse_typed in ground arith)

high_byte : (hi lo : ℕ) → hi < 256 → lo < 256 → port_high (hi * 256 + lo) ≡ hi
high_byte hi lo h l = omega arith

low_byte : (hi lo : ℕ) → lo < 256 → (hi * 256 + lo) % 256 ≡ lo
low_byte hi lo l = omega arith

-- The bytes at a position of a list of bytes.
get_or-IsBytes : (s : Bytes) (n : ℕ) → IsBytes s → get_or s n 0 < 256
get_or-IsBytes [] n h = omega arith
get_or-IsBytes (a ∷ s) zero h = h.0
get_or-IsBytes (a ∷ s) (suc n) h = get_or-IsBytes s n h.1

-- The blob cut into its parts.
blob_parts :
    (t len : ℕ) (rest : Bytes)
    → len + 2 ≤ length rest
    → (length (take len rest) ≡ len)
      × (rest
          ≡ take len rest ++ (get_or rest len 0 ∷ get_or rest (len + 1) 0 ∷ drop (len + 2) rest))
blob_parts t len rest h = (
  omega (arith, length-take len rest),
  sym (take-append-drop len rest) ∙ ap (◌++◌ (take len rest)) (two_at rest len h),
)

parse_long :
    (t len : ℕ) (rest : Bytes)
    → len + 2 ≤ length rest
    → parse_binary (t ∷ len ∷ rest)
      ≡ parse_typed t len (t ∷ len ∷ rest) (get_or rest len 0 * 256 + get_or rest (len + 1) 0)
unfolding parse_binary
parse_long t len rest h =
    let e : 2 + len ≡ suc (suc len) = omega arith in
    let f : 2 + len + 1 ≡ suc (suc (len + 1)) = omega arith in
    rw
      (
        le→ltb_false (length (t ∷ len ∷ rest)) 4 (omega arith),
        le→ltb_false (length (t ∷ len ∷ rest)) (2 + len + 2) (omega arith),
        f,
        e,
      )
      refl

long_of_ok :
    (t len : ℕ) (rest : Bytes) (a : Address)
    → parse_binary (t ∷ len ∷ rest) ≡ ok a
    → len + 2 ≤ length rest
unfolding parse_binary
long_of_ok t len rest a h = ground arith

-- Whatever bytes are read as an address, the address has a form, and the blob begins with it.
pub to_binary-parse_binary :
    (blob : Bytes) (a : Address)
    → IsBytes blob
    → parse_binary blob ≡ ok a
    → HasForm a × (blob ≡ to_binary a ++ drop (4 + get_or blob 1 0) blob)
to_binary-parse_binary [] a bs h = absurd (unfold parse_binary in cc)
to_binary-parse_binary (t ∷ []) a bs h = absurd (unfold parse_binary in cc)
to_binary-parse_binary (t ∷ len ∷ rest) a bs h =
    let room = long_of_ok t len rest a h in
    let (size, parts) = blob_parts t len rest room in
    let hi = get_or rest len 0 in
    let lo = get_or rest (len + 1) 0 in
    let small : hi * 256 + lo < 2 ^ 16 =
      omega (arith, get_or-IsBytes rest len bs.1.1, get_or-IsBytes rest (len + 1) bs.1.1) in
    let d = take len rest in
    let shaped : t ∷ len ∷ rest ≡ t ∷ length d ∷ (d ++ (hi ∷ lo ∷ drop (len + 2) rest)) =
      ap₂ (λ n s. t ∷ n ∷ s) (sym size) parts in
    let h' : parse_typed t (length d) (t ∷ length d ∷ (d ++ (hi ∷ lo ∷ drop (len + 2) rest)))
          (hi * 256 + lo)
        ≡ ok a =
      ap₂ (λ n s. parse_typed t n s (hi * 256 + lo)) size (sym shaped)
      ∙ sym (parse_long t len rest room)
      ∙ h in
    let (form, text) =
      typed-HasParts t d _ (hi * 256 + lo) a small (omega (arith, size, bs.1.0)) h' in
    let hi_fits = get_or-IsBytes rest len bs.1.1 in
    let lo_fits = get_or-IsBytes rest (len + 1) bs.1.1 in
    let text' : to_binary a ≡ t ∷ length d ∷ (d ++ (hi ∷ lo ∷ [])) =
      text
      ∙ ap₂ (λ x y. t ∷ length d ∷ (d ++ (x ∷ y ∷ []))) (high_byte hi lo hi_fits lo_fits)
          (low_byte hi lo lo_fits) in
    (
      form,
      shaped
          ∙ sym (binary_text (to_binary a) t d hi lo (drop (len + 2) rest) text')
          ∙ (let e : 4 + len ≡ suc (suc (len + 2)) = omega arith in rw e refl),
    )
