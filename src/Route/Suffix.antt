-- ===== src/Route/Suffix.antt =====
-- `endsWithSuffix` of src/route/router.cpp.
use shine.Prelude.{
  ℕ, zero, suc, ◌+◌, ◌-◌, ◌≡◌, ◌↔◌, ◌⊎◌, inl, inr, refl, sym, ◌∙◌, ap, [], ◌∷◌, ◌++◌, Bool, true,
  false, not, ◌&&◌, ◌||◌, Bytes, bytes_eq, bytes_eq_sound, bytes_eq_refl, length, drop, get_or,
  arith, ltb, ◌==◌, if◌then◌else◌, take-append-drop, take, length-append, drop-append, ==_iff,
  ==_refl, ap₂, le→ltb_false,
}

abbrev pub dot : ℕ
dot = 46

-- `absl::EndsWith`.
unfoldable pub ends_with : Bytes → Bytes → Bool
ends_with domain suffix =
    not (ltb (length domain) (length suffix))
    && bytes_eq (drop (length domain - length suffix) domain) suffix

-- The second operand: the whole domain, a suffix with its dot, or a dot in front of it.
unfoldable pub at_label : Bytes → Bytes → Bool
at_label domain suffix =
    (length domain == length suffix)
    || ((get_or suffix 0 0 == dot) || (get_or domain (length domain - length suffix - 1) 0 == dot))

unfoldable pub ends_with_suffix : Bytes → Bytes → Bool
ends_with_suffix domain [] = false
ends_with_suffix domain (c ∷ suffix) =
    if ltb (length domain) (length (c ∷ suffix))
    then false
    else ends_with domain (c ∷ suffix) && at_label domain (c ∷ suffix)

ends_with_append : (pre s : Bytes) → ends_with (pre ++ s) s ≡ true
unfolding ends_with
ends_with_append pre s =
    let n : length (pre ++ s) - length s ≡ length pre = omega (arith, length-append pre s) in
    let long : ltb (length (pre ++ s)) (length s) ≡ false =
      le→ltb_false (length (pre ++ s)) (length s) (omega (arith, length-append pre s)) in
    rw (long, n, drop-append (length pre) pre s refl, bytes_eq_refl s) refl

and_both : (a b : Bool) → a && b ≡ true → (a ≡ true) × (b ≡ true)
and_both true true h = (refl, refl)
and_both true false h = absurd cc
and_both false b h = absurd cc

-- What stands before a suffix.
abbrev before : Bytes → Bytes → Bytes
before d s = take (length d - length s) d

ends_with_split : (d s : Bytes) → ends_with d s ≡ true → d ≡ before d s ++ s
unfolding ends_with
ends_with_split d s h =
    let eq : bytes_eq (drop (length d - length s) d) s ≡ true = grind arith in
    sym (take-append-drop (length d - length s) d)
    ∙ ap (λ x. before d s ++ x) (bytes_eq_sound (drop (length d - length s) d) s eq)

-- A list that ends in a byte.
last_at :
    (n : ℕ) (pre s : Bytes) (b : ℕ)
    → length pre ≡ suc n
    → get_or (pre ++ s) n 0 ≡ b
    → (rest : Bytes) × (pre ≡ rest ++ (b ∷ []))
last_at n [] s b e h = absurd (omega arith)
last_at zero (x ∷ []) s b e h = ([], ap (λ v. v ∷ []) h)
last_at zero (x ∷ y ∷ pre) s b e h = absurd (omega arith)
last_at (suc n) (x ∷ pre) s b e h =
    let (rest, same) = last_at n pre s b (omega arith) h in (x ∷ rest, ap (◌∷◌ x) same)

get_or_last : (rest s : Bytes) (b : ℕ) → get_or ((rest ++ (b ∷ [])) ++ s) (length rest) 0 ≡ b
get_or_last [] s b = refl
get_or_last (x ∷ rest) s b = get_or_last rest s b

nil_of_length : (xs : Bytes) → length xs ≡ 0 → xs ≡ []
nil_of_length [] h = refl
nil_of_length (x ∷ xs) h = absurd (omega arith)

-- A suffix stands at a label of the domain: it is the domain, begins with a dot, or follows one.
abbrev pub IsAtLabel : Bytes → ℕ → Type 0
IsAtLabel pre c = (pre ≡ []) ⊎ ((c ≡ dot) ⊎ ((rest : Bytes) × (pre ≡ rest ++ (dot ∷ []))))

or_cases : (a b c : Bool) → a || (b || c) ≡ true → (a ≡ true) ⊎ ((b ≡ true) ⊎ (c ≡ true))
or_cases true b c h = inl refl
or_cases false true c h = inr (inl refl)
or_cases false false c h = inr (inr h)

or_last : (a b : Bool) → a || (b || true) ≡ true
or_last true b = refl
or_last false true = refl
or_last false false = refl

or_middle : (a c : Bool) → a || (true || c) ≡ true
or_middle true c = refl
or_middle false c = refl

at_label_sound :
    (pre s : Bytes) (c : ℕ) → at_label (pre ++ (c ∷ s)) (c ∷ s) ≡ true → IsAtLabel pre c
unfolding at_label
at_label_sound [] s c h = inl refl
at_label_sound (x ∷ pre) s c h =
    let n : length (pre ++ (c ∷ s)) ≡ length pre + length (c ∷ s) = length-append pre (c ∷ s) in
    elim (or_cases _ _ _ h) [
      | inl e ↦
          absurd (omega (arith, n, (==_iff (length (x ∷ pre ++ (c ∷ s))) (length (c ∷ s))).0 e))
      | inr (inl e) ↦ inr (inl ((==_iff c dot).0 e))
      | inr (inr e) ↦
          let at : length (x ∷ pre ++ (c ∷ s)) - length (c ∷ s) - 1 ≡ length pre =
            omega (arith, n) in
          inr (
            inr (
              last_at (length pre) (x ∷ pre) (c ∷ s) dot (omega arith)
                (ap (λ k. get_or (x ∷ pre ++ (c ∷ s)) k 0) (sym at) ∙ (==_iff _ dot).0 e)))
    ]

at_label_complete :
    (pre s : Bytes) (c : ℕ) → IsAtLabel pre c → at_label (pre ++ (c ∷ s)) (c ∷ s) ≡ true
unfolding at_label
at_label_complete pre s c (inl e) = rw (e, ==_refl (length (c ∷ s))) refl
at_label_complete pre s c (inr (inl e)) =
    let first : (c == dot) ≡ true = (==_iff c dot).1 e in
    rw first (
      or_middle (length (pre ++ (c ∷ s)) == length (c ∷ s))
        (get_or (pre ++ (c ∷ s)) (length (pre ++ (c ∷ s)) - length (c ∷ s) - 1) 0 == dot))
at_label_complete pre s c (inr (inr (rest, e))) =
    let at : length (pre ++ (c ∷ s)) - length (c ∷ s) - 1 ≡ length rest =
      omega (arith, length-append pre (c ∷ s), ap length e, length-append rest (dot ∷ [])) in
    let last : get_or (pre ++ (c ∷ s)) (length rest) 0 ≡ dot =
      ap (λ p. get_or (p ++ (c ∷ s)) (length rest) 0) e ∙ get_or_last rest (c ∷ s) dot in
    rw (at, last) (or_last _ _)

ends_with_suffix_and :
    (d s : Bytes) (c : ℕ) → ends_with_suffix d (c ∷ s) ≡ ends_with d (c ∷ s) && at_label d (c ∷ s)
unfolding ends_with_suffix ends_with
ends_with_suffix_and d s c = grind arith

-- A domain ends with a suffix of at least one byte exactly when it is some text followed by the
-- suffix, and the suffix stands at a label: the text is empty, the suffix begins with a dot, or the
-- text ends with one.
pub ends_with_suffix_iff :
    (d s : Bytes) (c : ℕ)
    → (ends_with_suffix d (c ∷ s) ≡ true) ↔ ((pre : Bytes) × (d ≡ pre ++ (c ∷ s)) × IsAtLabel pre c)
ends_with_suffix_iff d s c = (
  λ h.
      let both : ends_with d (c ∷ s) && at_label d (c ∷ s) ≡ true =
        sym (ends_with_suffix_and d s c) ∙ h in
      let (ends, at) = and_both _ _ both in
      let split = ends_with_split d (c ∷ s) ends in
      (
        before d (c ∷ s),
        split,
        at_label_sound (before d (c ∷ s)) s c (ap (λ x. at_label x (c ∷ s)) (sym split) ∙ at),
      ),
  λ (pre, e, at).
      ends_with_suffix_and d s c
      ∙ ap (λ x. ends_with x (c ∷ s) && at_label x (c ∷ s)) e
      ∙ ap₂ (◌&&◌) (ends_with_append pre (c ∷ s)) (at_label_complete pre s c at),
)
