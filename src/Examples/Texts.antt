-- ===== src/Examples/Texts.antt =====
-- A library of address texts that behaves as documented: IPv6 bytes are printed behind the brackets.
use shine.Prelude.{
  ℕ, ◌+◌, ◌-◌, ◌≡◌, refl, ap, List, [], ◌∷◌, ◌++◌, some, true, false, arith, Bytes, All, ◌==◌,
  if◌then◌else◌,
}
use shine.Transport.Address.Text.{TextLib, join, Lacks, IsReliable}
use shine.Examples.Numbers.{decimal, decimal-IsLawful}

abbrev pub to_head : ℕ → List Bytes → List Bytes
to_head b [] = (b ∷ []) ∷ []
to_head b (p ∷ parts) = (b ∷ p) ∷ parts

abbrev pub split : ℕ → Bytes → List Bytes
split c [] = [] ∷ []
split c (b ∷ s) = let rest = split c s in if b == c then [] ∷ rest else to_head b rest

abbrev pub shift : Bytes → Bytes
shift [] = []
shift (b ∷ s) = (b + 94) ∷ shift s

abbrev pub unshift : Bytes → Bytes
unshift [] = []
unshift (b ∷ s) = (b - 94) ∷ unshift s

abbrev pub plain : TextLib
plain = record {
  simple_atoi_int = decimal.simple_atoi;
  str_split = split;
  make_address_v6 = λ s. some (unshift s);
  v6_to_string = shift;
}

split_one : (c : ℕ) (p : Bytes) → Lacks c p → split c p ≡ p ∷ []
split_one c [] l = refl
split_one c (b ∷ p) l =
    let e : b == c ≡ false = ground (arith, l.0) in rw (e, split_one c p l.1) refl

split_more :
    (c : ℕ) (p s : Bytes) (parts : List Bytes)
    → Lacks c p
    → split c s ≡ parts
    → split c (p ++ (c ∷ s)) ≡ p ∷ parts
split_more c [] s parts l h = let e : c == c ≡ true = ground arith in rw (e, h) refl
split_more c (b ∷ p) s parts l h =
    let e : b == c ≡ false = ground (arith, l.0) in rw (e, split_more c p s parts l.1 h) refl

split-join :
    (c : ℕ) (p : Bytes) (parts : List Bytes)
    → All (Lacks c) (p ∷ parts)
    → split c (join c (p ∷ parts)) ≡ p ∷ parts
split-join c p [] l = split_one c p l.0
split-join c p (q ∷ parts) l =
    split_more c p (join c (q ∷ parts)) (q ∷ parts) l.0 (split-join c q parts l.1)

unshift-shift : (b : Bytes) → unshift (shift b) ≡ b
unshift-shift [] = refl
unshift-shift (b ∷ s) = let e : b + 94 - 94 ≡ b = omega arith in rw (e, unshift-shift s) refl

shift-Lacks : (b : Bytes) → Lacks b']' (shift b)
shift-Lacks [] = tt
shift-Lacks (b ∷ s) = (λ e. omega (arith, e), shift-Lacks s)

pub plain-IsReliable : IsReliable decimal plain
plain-IsReliable = record {
  simple_atoi_int-str_cat =
      λ n small. decimal-IsLawful.simple_atoi-str_cat n (omega (arith, small));
  str_split-join = split-join;
  make_address_v6-v6_to_string = λ b size. ap some (unshift-shift b);
  v6_to_string-Lacks = shift-Lacks;
}
