-- ===== src/Config/Validate/Inbounds.antt =====
-- What the loop over the inbounds in `Config::validate` of src/config/yaml_loader.cpp checks.
use shine.Prelude.{
  ◌≡◌, ◌≢◌, refl, sym, ◌∙◌, ap, List, [], ◌∷◌, ◌++◌, Bool, true, false, not, ◌||◌, Bytes, codes,
  Mem, All, bytes_eq, Result, ok, ◌>>◌,
}
use shine.Route.Parents.{contains, contains_complete}
use shine.Config.Schema.{InboundConfig}
use shine.Config.Validate.{is_empty, require, validate_inbounds}

-- The tags are new, each among those before it.
abbrev pub Fresh : List Bytes → List Bytes → Type 0
Fresh seen [] = Unit
Fresh seen (t ∷ tags) = (Mem t seen → ⊥) × Fresh (t ∷ seen) tags

abbrev pub in_tags : List InboundConfig → List Bytes
in_tags [] = []
in_tags (i ∷ inbounds) = i.tag ∷ in_tags inbounds

-- A test that was passed, and the rest.
pub require_ok :
    {A : Type 0} (b : Bool) (message : Bytes) (k : Result A) (a : A)
    → (require b message >> k) ≡ ok a
    → (b ≡ true) × (k ≡ ok a)
require_ok true message k a h = (refl, h)
require_ok false message k a h = absurd cc

pub not_empty : (s : Bytes) → not (is_empty s) ≡ true → s ≢ []
not_empty [] h e = absurd cc
not_empty (b ∷ s) h e = absurd cc

pub not_contained : (set : List Bytes) (s : Bytes) → not (contains set s) ≡ true → Mem s set → ⊥
not_contained set s h m =
    let q : not true ≡ true = ap not (sym (contains_complete set s m)) ∙ h in absurd cc

abbrev prefixed : List Bytes → List Bytes
prefixed [] = []
prefixed (t ∷ tags) = (codes "in:" ++ t) ∷ prefixed tags

contains-prefixed :
    (tags : List Bytes) (t : Bytes) → contains (prefixed tags) (codes "in:" ++ t) ≡ contains tags t
unfolding contains
contains-prefixed [] t = refl
contains-prefixed (x ∷ tags) t = ap (λ b. bytes_eq x t || b) (contains-prefixed tags t)

pub inbounds_ok :
    (seen : List Bytes) (inbounds : List InboundConfig)
    → validate_inbounds (prefixed seen) inbounds ≡ ok tt
    → All (λ (i : InboundConfig). (i.tag ≢ []) × (i.listen ≢ [])) inbounds
      × Fresh seen (in_tags inbounds)
unfolding validate_inbounds
inbounds_ok seen [] h = (tt, tt)
inbounds_ok seen (i ∷ inbounds) h =
    let (named, h1) = require_ok (not (is_empty i.tag)) _ _ tt h in
    let (new, h2) = require_ok (not (contains (prefixed seen) (codes "in:" ++ i.tag))) _ _ tt h1 in
    let (listens, h3) = require_ok (not (is_empty i.listen)) _ _ tt h2 in
    let rest = inbounds_ok (i.tag ∷ seen) inbounds h3 in
    (
      ((not_empty i.tag named, not_empty i.listen listens), rest.0),
      (not_contained seen i.tag (ap not (sym (contains-prefixed seen i.tag)) ∙ new), rest.1),
    )
