-- ===== src/Config/Validate/Laws.antt =====
-- What `Config::validate` of src/config/yaml_loader.cpp checks.
use shine.Prelude.{
  ◌≡◌, ◌≢◌, ◌⊎◌, inl, inr, refl, sym, ◌∙◌, ap, subst, List, [], ◌∷◌, Bool, true, false, not, ◌||◌,
  Bytes, codes, Mem, All, bytes_eq_sound, Result, ok, err, ◌>>=◌, ◌>>◌,
}
use shine.Route.Parents.{contains, contains_sound}
use shine.Route.Router.{RuleConfig}
use shine.Config.Schema.{InboundConfig, OutboundConfig, Config}
use shine.Config.Validate.{
  is_empty, is_nil, is_direct, validate_inbounds, validate_outbounds, validate_rules,
  validate_route, validate,
}
use shine.Config.Validate.Inbounds.{
  Fresh, in_tags, require_ok, not_empty, not_contained, inbounds_ok,
}

abbrev pub out_tags : List OutboundConfig → List Bytes
out_tags [] = []
out_tags (o ∷ outbounds) = o.tag ∷ out_tags outbounds

-- What a configuration has to meet.
pub record IsValid (c : Config) : Type 0 where
  pub some_inbound : c.inbounds ≢ []
  pub inbounds_named : All (λ (i : InboundConfig). (i.tag ≢ []) × (i.listen ≢ [])) c.inbounds
  pub inbounds_distinct : Fresh [] (in_tags c.inbounds)
  pub outbounds_named : All (λ (o : OutboundConfig). o.tag ≢ []) c.outbounds
  pub outbounds_distinct : Fresh [] (out_tags c.outbounds)
  pub some_direct : (o : OutboundConfig) × Mem o c.outbounds × (o.protocol ≡ codes "direct")
  pub default_known :
      (c.route.default_outbound ≡ []) ⊎ Mem c.route.default_outbound (out_tags c.outbounds)
  pub rules_known :
      All (λ (r : RuleConfig). Mem r.outbound_tag (out_tags c.outbounds)) c.route.rules

-- The tags that the loop over the outbounds has collected.
abbrev pub push_tags : List Bytes → List OutboundConfig → List Bytes
push_tags seen [] = seen
push_tags seen (o ∷ outbounds) = push_tags (o.tag ∷ seen) outbounds

Mem-push_tags :
    (t : Bytes) (seen : List Bytes) (outbounds : List OutboundConfig)
    → Mem t (push_tags seen outbounds)
    → Mem t seen ⊎ Mem t (out_tags outbounds)
Mem-push_tags t seen [] m = inl m
Mem-push_tags t seen (o ∷ outbounds) m = elim (Mem-push_tags t (o.tag ∷ seen) outbounds m) [
  | inl (inl e) ↦ inr (inl e)
  | inl (inr old) ↦ inl old
  | inr later ↦ inr (inr later)
]

-- What the loop over the outbounds finds out.
abbrev OutboundsOk : List Bytes → Bool → List OutboundConfig → List Bytes × Bool → Type 0
OutboundsOk seen direct outbounds (tags, found) =
    All (λ (o : OutboundConfig). o.tag ≢ []) outbounds
    × Fresh seen (out_tags outbounds)
    × (tags ≡ push_tags seen outbounds)
    × ((found ≡ true)
        → (direct ≡ true)
          ⊎ ((o : OutboundConfig) × Mem o outbounds × (o.protocol ≡ codes "direct")))

direct_cases :
    (direct : Bool) (o : OutboundConfig)
    → direct || is_direct o ≡ true
    → (direct ≡ true) ⊎ (o.protocol ≡ codes "direct")
direct_cases true o h = inl refl
direct_cases false o h = inr (bytes_eq_sound o.protocol (codes "direct") h)

outbounds_ok :
    (seen : List Bytes) (direct : Bool) (outbounds : List OutboundConfig) (r : List Bytes × Bool)
    → validate_outbounds seen direct outbounds ≡ ok r
    → OutboundsOk seen direct outbounds r
unfolding validate_outbounds
outbounds_ok seen direct [] (tags, found) h =
    let pair : ◌≡◌ {A = List Bytes × Bool} (seen, direct) (tags, found) = cc in
    (tt, tt, sym (ap (λ p. p.0) pair), λ e. inl (ap (λ p. p.1) pair ∙ e))
outbounds_ok seen direct (o ∷ outbounds) (tags, found) h =
    let (named, h1) = require_ok (not (is_empty o.tag)) _ _ (tags, found) h in
    let (new, h2) = require_ok (not (contains seen o.tag)) _ _ (tags, found) h1 in
    let (names, fresh, all_tags, some) =
      outbounds_ok (o.tag ∷ seen) (direct || is_direct o) outbounds (tags, found) h2 in
    (
      (not_empty o.tag named, names),
      (not_contained seen o.tag new, fresh),
      all_tags,
      λ e. elim (some e) [
        | inl d ↦ elim (direct_cases direct o d) [ inl d' ↦ inl d' | inr p ↦ inr (o, inl refl, p) ]
        | inr (x, m, p) ↦ inr (x, inr m, p)
      ],
    )

rules_ok :
    (tags : List Bytes) (rules : List RuleConfig)
    → validate_rules tags rules ≡ ok tt
    → All (λ (r : RuleConfig). Mem r.outbound_tag tags) rules
unfolding validate_rules
rules_ok tags [] h = tt
rules_ok tags (r ∷ rules) h =
    let (known, h1) = require_ok (contains tags r.outbound_tag) _ _ tt h in
    (contains_sound tags r.outbound_tag known, rules_ok tags rules h1)

empty_or_known :
    (tags : List Bytes) (s : Bytes) → is_empty s || contains tags s ≡ true → (s ≡ []) ⊎ Mem s tags
empty_or_known tags [] h = inl refl
empty_or_known tags (b ∷ s) h = inr (contains_sound tags (b ∷ s) h)

-- A tag that was collected from nothing is one of the outbounds'.
collected :
    (t : Bytes) (outbounds : List OutboundConfig)
    → Mem t (push_tags [] outbounds)
    → Mem t (out_tags outbounds)
collected t outbounds m = elim (Mem-push_tags t [] outbounds m) [
  | inl none_of ↦ elim none_of [ ]
  | inr found ↦ found
]

All-weaken :
    {A : Type 0} (P Q : A → Type 0) (xs : List A) → ((x : A) → P x → Q x) → All P xs → All Q xs
All-weaken P Q [] k h = tt
All-weaken P Q (x ∷ xs) k h = (k x h.0, All-weaken P Q xs k h.1)

not_nil : (inbounds : List InboundConfig) → not (is_nil inbounds) ≡ true → inbounds ≢ []
not_nil [] h e = absurd cc
not_nil (i ∷ inbounds) h e = absurd cc

pub bind_ok :
    {A B : Type 0} (m : Result A) (f : A → Result B) (b : B)
    → m >>= f ≡ ok b
    → (a : A) × (m ≡ ok a) × (f a ≡ ok b)
bind_ok (err status) f b h = absurd cc
bind_ok (ok a) f b h = (a, refl, h)

pub then_ok :
    {B : Type 0} (m : Result (Unit {0})) (k : Result B) (b : B)
    → m >> k ≡ ok b
    → (m ≡ ok tt) × (k ≡ ok b)
then_ok (err status) k b h = absurd cc
then_ok (ok u) k b h = (refl, h)

-- A configuration that `validate` accepts has an inbound and a direct outbound, its tags are
-- distinct and not empty, every inbound listens somewhere, and every outbound that the rules or the
-- default name is there.
pub validate-IsValid : (c : Config) → validate c ≡ ok tt → IsValid c
unfolding validate validate_route
validate-IsValid c h =
    let (inbounds, h1) = then_ok (validate_inbounds [] c.inbounds) _ tt h in
    let (some_in, h2) = require_ok (not (is_nil c.inbounds)) _ _ tt h1 in
    let (found, outbounds, h3) = bind_ok (validate_outbounds [] false c.outbounds) _ tt h2 in
    let ins = inbounds_ok [] c.inbounds inbounds in
    let (names, fresh, all_tags, some) = outbounds_ok [] false c.outbounds found outbounds in
    let (direct, h4) = require_ok found.1 _ _ tt h3 in
    let (default, h5) =
      require_ok (is_empty c.route.default_outbound || contains found.0 c.route.default_outbound) _
        _ tt h4 in
    let known : (t : Bytes) → Mem t found.0 → Mem t (out_tags c.outbounds) =
      λ t m. collected t c.outbounds (subst (Mem t) all_tags m) in
    record {
      some_inbound = not_nil c.inbounds some_in;
      inbounds_named = ins.0;
      inbounds_distinct = ins.1;
      outbounds_named = names;
      outbounds_distinct = fresh;
      some_direct = elim (some direct) [ inl e ↦ absurd cc | inr o ↦ o ];
      default_known = elim (empty_or_known found.0 c.route.default_outbound default) [
        | inl e ↦ inl e
        | inr m ↦ inr (known _ m)
      ];
      rules_known =
          All-weaken _ _ c.route.rules (λ r m. known r.outbound_tag m)
            (rules_ok found.0 c.route.rules h5);
    }
