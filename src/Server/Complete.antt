-- ===== src/Server/Complete.antt =====
-- A server of src/main.cpp that runs has an outbound for every request that its rules send to one.
use shine.Prelude.{
  ℕ, ◌≡◌, ◌≢◌, ◌⊎◌, inl, inr, refl, sym, ◌∙◌, ap, subst, List, [], ◌∷◌, ◌++◌, Option, none, some,
  Bytes, Mem, All, bytes_eq, bytes_eq_refl, Result, ok, err, Bool-cases,
}
use shine.Route.Category.{Regexes, SiteCategory, IpCategory, find_code}
use shine.Route.Cidr.{Readers}
use shine.Route.Router.{Request, RuleConfig, CompiledRule, Router, pick, compile}
use shine.Route.Router.Picking.{config_tags, rule_tags, pick-Picked, compile_tags}
use shine.Config.Schema.{InboundConfig, OutboundConfig}
use shine.Absl.{Absl}
use shine.Config.Values.{Doubles}
use shine.Config.Yaml.{Yaml}
use shine.Config.Load.{load_from_file}
use shine.Config.Load.Checked.{load_from_file-IsValid}
use shine.Config.Validate.Laws.{out_tags, bind_ok}
use shine.Server.{
  InboundKind, OutboundKind, Outbounds, make_outbound, emplace_unless, build_outbounds,
  start_inbounds, Boot, exits, runs, or_exit, boot, no_route, handed_to, hand_over, dispatch_to,
  dispatch,
}

-- A tag that has an entry.
abbrev pub IsKnown : Bytes → Outbounds → Type 0
IsKnown tag obs = (kind : OutboundKind) × (find_code tag obs ≡ some kind)

IsKnown-cons :
    (tag t : Bytes) (kind : OutboundKind) (obs : Outbounds)
    → IsKnown tag obs
    → IsKnown tag ((t, kind) ∷ obs)
unfolding find_code
IsKnown-cons tag t kind obs (k, h) = elim (Bool-cases (bytes_eq t tag)) [
  | inl e ↦ (kind, rw e refl)
  | inr e ↦ (k, rw e h)
]

IsKnown-here :
    (tag : Bytes) (kind : OutboundKind) (obs : Outbounds) → IsKnown tag ((tag, kind) ∷ obs)
unfolding find_code
IsKnown-here tag kind obs = (kind, rw (bytes_eq_refl tag) refl)

-- An entry stays, and the tag of the entry that is added is there.
emplace_keeps :
    (o : Option OutboundKind) (tag t : Bytes) (kind : OutboundKind) (obs : Outbounds)
    → IsKnown tag obs
    → IsKnown tag (emplace_unless o t kind obs)
unfolding emplace_unless
emplace_keeps none tag t kind obs h = IsKnown-cons tag t kind obs h
emplace_keeps (some old) tag t kind obs h = h

emplace_adds :
    (o : Option OutboundKind) (t : Bytes) (kind : OutboundKind) (obs : Outbounds)
    → find_code t obs ≡ o
    → IsKnown t (emplace_unless o t kind obs)
unfolding emplace_unless
emplace_adds none t kind obs h = IsKnown-here t kind obs
emplace_adds (some old) t kind obs h = (old, h)

build_keeps :
    (tag : Bytes) (outbounds : List OutboundConfig) (obs result : Outbounds)
    → build_outbounds obs outbounds ≡ ok result
    → IsKnown tag obs
    → IsKnown tag result
unfolding build_outbounds
build_keeps tag [] obs result h k = let same : obs ≡ result = cc in subst (IsKnown tag) same k
build_keeps tag (o ∷ outbounds) obs result h k =
    let (kind, made, h') = bind_ok (make_outbound o.protocol) _ result h in
    build_keeps tag outbounds _ result h' (emplace_keeps (find_code o.tag obs) tag o.tag kind obs k)

build_knows :
    (tag : Bytes) (outbounds : List OutboundConfig) (obs result : Outbounds)
    → build_outbounds obs outbounds ≡ ok result
    → Mem tag (out_tags outbounds)
    → IsKnown tag result
unfolding build_outbounds
build_knows tag [] obs result h m = elim m [ ]
build_knows tag (o ∷ outbounds) obs result h m =
    let (kind, made, h') = bind_ok (make_outbound o.protocol) _ result h in
    elim m [
      | inl e ↦ build_keeps tag outbounds _ result h' (
          subst (λ t. IsKnown t (emplace_unless (find_code o.tag obs) o.tag kind obs)) (sym e)
            (emplace_adds (find_code o.tag obs) o.tag kind obs refl))
      | inr m' ↦ build_knows tag outbounds _ result h' m'
    ]

Mem-config_tags :
    (tags : List Bytes) (rcs : List RuleConfig) (tag : Bytes)
    → All (λ (r : RuleConfig). Mem r.outbound_tag tags) rcs
    → Mem tag (config_tags rcs)
    → Mem tag tags
Mem-config_tags tags [] tag h m = elim m [ ]
Mem-config_tags tags (rc ∷ rcs) tag h (inl e) = subst (λ t. Mem t tags) (sym e) h.0
Mem-config_tags tags (rc ∷ rcs) tag h (inr m) = Mem-config_tags tags rcs tag h.1 m

Mem-rule_tags :
    (before after : List CompiledRule) (rule : CompiledRule)
    → Mem rule.outbound_tag (rule_tags (before ++ (rule ∷ after)))
Mem-rule_tags [] after rule = inl refl
Mem-rule_tags (x ∷ before) after rule = inr (Mem-rule_tags before after rule)

module _ (regexes : Regexes) where
  -- The outbound that is picked is the default one or that of a rule.
  pick_tags :
      (r : Request) (router : Router regexes)
      → (pick regexes r router ≡ router.default_outbound)
        ⊎ Mem (pick regexes r router) (rule_tags router.rules)
  pick_tags r router = elim (pick-Picked regexes r router) [
    | inl (free, e) ↦ inl e
    | inr (before, rule, after, split, free, hits, e) ↦ inr (
        subst (λ t. Mem t (rule_tags router.rules)) (sym e)
          (subst (λ rules. Mem rule.outbound_tag (rule_tags rules)) (sym split)
            (Mem-rule_tags before after rule)))
  ]

  dispatch_known :
      (tag : Bytes) (obs : Outbounds)
      → (tag ≡ []) ⊎ IsKnown tag obs
      → ((tag ≡ []) × (dispatch_to tag obs ≡ no_route))
        ⊎ ((kind : OutboundKind) × (dispatch_to tag obs ≡ handed_to kind))
  unfolding dispatch_to hand_over
  dispatch_known [] obs h = inl (refl, refl)
  dispatch_known (b ∷ tag) obs (inl e) = absurd cc
  dispatch_known (b ∷ tag) obs (inr (kind, h)) = inr (kind, ap (hand_over (b ∷ tag)) h)

  exits_runs :
      (code : ℕ) (router : Router regexes) (obs : Outbounds) (kinds : List InboundKind)
      → exits code ≢ runs router obs kinds
  exits_runs code router obs kinds h = cc

  -- A stage of the start-up that was passed.
  stage :
      {A : Type 0} (code : ℕ) (m : Result A) (k : A → Boot regexes) (router : Router regexes)
      (obs : Outbounds) (kinds : List InboundKind)
      → or_exit regexes code m k ≡ runs router obs kinds
      → (a : A) × (m ≡ ok a) × (k a ≡ runs router obs kinds)
  stage code (err status) k router obs kinds h = absurd (exits_runs code router obs kinds h)
  stage code (ok a) k router obs kinds h = (a, refl, h)

  module _ (yaml : Yaml) (absl : Absl) (doubles : Doubles) (readers : Readers)
      (sites : Option (List (Bytes × SiteCategory regexes)))
      (ips : Option (List (Bytes × IpCategory)))
      (start : InboundKind → InboundConfig → Result (Unit {0})) where
    -- A server that came up on a configuration file never looks for an outbound in vain: each
    -- request is dropped, where the rules name no outbound for it, or handed to an outbound.
    pub dispatch_complete :
        (path : Bytes) (content : Option Bytes) (router : Router regexes) (obs : Outbounds)
        (kinds : List InboundKind) (r : Request)
        → boot regexes readers sites ips start (load_from_file yaml absl doubles path content)
          ≡ runs router obs kinds
        → ((pick regexes r router ≡ []) × (dispatch regexes router obs r ≡ no_route))
          ⊎ ((kind : OutboundKind) × (dispatch regexes router obs r ≡ handed_to kind))
    unfolding boot dispatch
    dispatch_complete path content router obs kinds r h =
        let (c, loaded, h1) =
          stage 1 (load_from_file yaml absl doubles path content) _ router obs kinds h in
        let (built, made, h2) = stage 2 (build_outbounds [] c.outbounds) _ router obs kinds h1 in
        let (compiled, rules, h3) =
          stage 2 (compile regexes readers c.route.rules c.route.default_outbound sites ips) _
            router obs kinds h2 in
        let (started, listening, h4) =
          stage 2 (start_inbounds start c.inbounds) _ router obs kinds h3 in
        let same_router : compiled ≡ router = cc in
        let same_obs : built ≡ obs = cc in
        let valid = load_from_file-IsValid yaml absl doubles path content c loaded in
        let tags =
          compile_tags regexes readers c.route.rules c.route.default_outbound sites ips router
            (rules ∙ ap ok same_router) in
        let known : (t : Bytes) → Mem t (out_tags c.outbounds) → IsKnown t obs =
          λ t m. build_knows t c.outbounds [] obs (made ∙ ap ok same_obs) m in
        dispatch_known (pick regexes r router) obs (elim (pick_tags r router) [
          | inl e ↦ elim valid.default_known [
            | inl direct ↦ inl (e ∙ tags.1 ∙ direct)
            | inr m ↦ inr (subst (λ t. IsKnown t obs) (sym (e ∙ tags.1)) (known _ m))
          ]
          | inr m ↦ inr (
              known _ (
                Mem-config_tags (out_tags c.outbounds) c.route.rules _ valid.rules_known
                  (subst (Mem (pick regexes r router)) tags.0 m)))
        ])
