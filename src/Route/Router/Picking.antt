-- ===== src/Route/Router/Picking.antt =====
-- The order of the rules in `Router::pick` and `Router::compile` of src/route/router.cpp.
use shine.Prelude.{
  ◌≡◌, ◌⊎◌, inl, inr, refl, sym, ◌∙◌, ap, ap₂, subst, List, [], ◌∷◌, ◌++◌, Option, Bool, true,
  false, Bytes, Result, ok, err, ◌>>=◌, All, Bool-cases, if◌then◌else◌,
}
use shine.Route.Category.{Regexes, SiteCategory, IpCategory}
use shine.Route.Cidr.{Readers}
use shine.Route.Router.{
  Request, RuleConfig, CompiledRule, Router, matches, pick_from, pick, compile_cidrs, compile_rule,
  compile_rules, compile, rule_with,
}

module _ (regexes : Regexes) where
  -- A rule that a request passes over.
  abbrev pub PassesOver : Request → Router regexes → CompiledRule → Type 0
  PassesOver r router rule = matches regexes rule r router ≡ false

  -- How `pick` answers: no rule matches, or one does and none before it.
  abbrev pub Picked : List CompiledRule → Request → Router regexes → Bytes → Type 0
  Picked rules r router tag =
      (All (PassesOver r router) rules × (tag ≡ router.default_outbound))
      ⊎ ((before : List CompiledRule) × (rule : CompiledRule) × (after : List CompiledRule) × (rules
            ≡ before ++ (rule ∷ after))
          × All (PassesOver r router) before
          × (matches regexes rule r router ≡ true)
          × (tag ≡ rule.outbound_tag))

  Picked-later :
      (rule : CompiledRule) (rules : List CompiledRule) (r : Request) (router : Router regexes)
      (tag : Bytes)
      → PassesOver r router rule
      → Picked rules r router tag
      → Picked (rule ∷ rules) r router tag
  Picked-later rule rules r router tag h (inl (none_of, e)) = inl ((h, none_of), e)
  Picked-later rule rules r router tag h (inr (before, x, after, e, free, hits, t)) =
      inr (rule ∷ before, x, after, ap (◌∷◌ rule) e, (h, free), hits, t)

  pick_from_step :
      (rule : CompiledRule) (rules : List CompiledRule) (r : Request) (router : Router regexes)
      (b : Bool)
      → matches regexes rule r router ≡ b
      → pick_from regexes (rule ∷ rules) r router
        ≡ (if b then rule.outbound_tag else pick_from regexes rules r router)
  unfolding pick_from
  pick_from_step rule rules r router b h =
      ap (λ b. if b then rule.outbound_tag else pick_from regexes rules r router) h

  pick_from-Picked :
      (rules : List CompiledRule) (r : Request) (router : Router regexes)
      → Picked rules r router (pick_from regexes rules r router)
  unfolding pick_from
  pick_from-Picked [] r router = inl (tt, refl)
  pick_from-Picked (rule ∷ rules) r router = elim (Bool-cases (matches regexes rule r router)) [
    | inl h ↦ inr ([], rule, rules, refl, tt, h, pick_from_step rule rules r router true h)
    | inr h ↦
        subst (Picked (rule ∷ rules) r router) (sym (pick_from_step rule rules r router false h)) (
          Picked-later rule rules r router (pick_from regexes rules r router) h
            (pick_from-Picked rules r router))
  ]

  pub pick-Picked :
      (r : Request) (router : Router regexes) → Picked router.rules r router (pick regexes r router)
  unfolding pick
  pick-Picked r router = pick_from-Picked router.rules r router

bind_ok :
    {A B : Type 0} (m : Result A) (f : A → Result B) (y : B)
    → m >>= f ≡ ok y
    → (x : A) × (m ≡ ok x) × (f x ≡ ok y)
bind_ok (err status) f y h = absurd cc
bind_ok (ok x) f y h = (x, refl, h)

-- The tags of rules before and after compilation.
abbrev pub config_tags : List RuleConfig → List Bytes
config_tags [] = []
config_tags (rc ∷ rcs) = rc.outbound_tag ∷ config_tags rcs

abbrev pub rule_tags : List CompiledRule → List Bytes
rule_tags [] = []
rule_tags (rule ∷ rules) = rule.outbound_tag ∷ rule_tags rules

module _ (regexes : Regexes) (readers : Readers) where
  compile_rule_tag :
      (rc : RuleConfig) (rule : CompiledRule)
      → compile_rule regexes readers rc ≡ ok rule
      → rule.outbound_tag ≡ rc.outbound_tag
  unfolding compile_rule
  compile_rule_tag rc rule h =
      let (cidrs, found, e) = bind_ok (compile_cidrs regexes readers rc.cidr_texts) _ rule h in
      let same : rule_with rc cidrs ≡ rule = cc in sym (ap (λ x. x.outbound_tag) same)

  compile_rules_tags :
      (rcs : List RuleConfig) (rules : List CompiledRule)
      → compile_rules regexes readers rcs ≡ ok rules
      → rule_tags rules ≡ config_tags rcs
  unfolding compile_rules
  compile_rules_tags [] rules h = let same : [] ≡ rules = cc in sym (ap rule_tags same)
  compile_rules_tags (rc ∷ rcs) rules h =
      let (rule, first, h') = bind_ok (compile_rule regexes readers rc) _ rules h in
      let (rest, later, e) = bind_ok (compile_rules regexes readers rcs) _ rules h' in
      let same : rule ∷ rest ≡ rules = cc in
      sym (ap rule_tags same)
      ∙ ap₂ ◌∷◌ (compile_rule_tag rc rule first) (compile_rules_tags rcs rest later)

  -- A configuration that compiles gives a router with one rule for each rule of the configuration,
  -- in the same order and to the same outbounds, and with the same default outbound.
  pub compile_tags :
      (rcs : List RuleConfig) (default : Bytes)
      (sites : Option (List (Bytes × SiteCategory regexes)))
      (ips : Option (List (Bytes × IpCategory))) (router : Router regexes)
      → compile regexes readers rcs default sites ips ≡ ok router
      → (rule_tags router.rules ≡ config_tags rcs) × (router.default_outbound ≡ default)
  unfolding compile
  compile_tags rcs default sites ips router h =
      let (rules, found, e) = bind_ok (compile_rules regexes readers rcs) _ router h in
      let same : record {
        rules = rules;
        default_outbound = default;
        geo_site = sites;
        geo_ip = ips;
      }
          ≡ router =
        cc in
      (
        sym (ap (λ x. rule_tags x.rules) same) ∙ compile_rules_tags rcs rules found,
        sym (ap (λ x. x.default_outbound) same),
      )
