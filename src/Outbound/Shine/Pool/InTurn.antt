-- ===== src/Outbound/Shine/Pool/InTurn.antt =====
-- Which link of the pool of src/outbound/shine_outbound.cpp a request gets: round robin.
use shine.Prelude.{
  ℕ, zero, suc, ◌+◌, ◌%◌, ◌^◌, ◌<◌, ◌≡◌, ◌≢◌, ◌⊎◌, ◌∙◌, inl, inr, refl, sym, ap, subst, List, [],
  ◌∷◌, none, some, false, arith, length, get_elem?, Bool-cases,
}
use shine.Outbound.Shine.{Outbound, is_closed, live, pick_of, pick_begin}
use shine.Outbound.Shine.Pool.{pool-pick_of, live-open, Mem-get_elem?, get_elem?_there}

-- The pool after so many picks, with nothing in between.
unfoldable pub after_picks : ℕ → Outbound → Outbound
after_picks zero o = o
after_picks (suc n) o = after_picks n (pick_begin o).1

live_again : (closed links : List ℕ) → live closed (live closed links) ≡ live closed links
unfolding live
live_again closed [] = refl
live_again closed (l ∷ links) = elim (Bool-cases (is_closed closed l)) [
  | inl e ↦ rw e (live_again closed links)
  | inr e ↦ rw e (rw (e, live_again closed links) refl)
]

-- A pick leaves the open links as they are, and moves the counter by one where there is a link.
closed-pick_of : (links : List ℕ) (o : Outbound) → (pick_of links o).1.closed ≡ o.closed
unfolding pick_of
closed-pick_of [] o = refl
closed-pick_of (l ∷ links) o = refl

live-pick_begin :
    (o : Outbound) → let o' = (pick_begin o).1 in live o'.closed o'.pool ≡ live o.closed o.pool
unfolding pick_begin
live-pick_begin o =
    let links = live o.closed o.pool in
    rw (closed-pick_of links o, pool-pick_of links o) (live_again o.closed o.pool)

rr-pick_of :
    (links : List ℕ) (o : Outbound)
    → o.rr + 1 < 2 ^ 64
    → links ≢ []
    → (pick_of links o).1.rr ≡ o.rr + 1
unfolding pick_of
rr-pick_of [] o small h = absurd (h refl)
rr-pick_of (l ∷ links) o small h = omega (arith, small)

rr-pick_begin :
    (o : Outbound) → o.rr + 1 < 2 ^ 64 → live o.closed o.pool ≢ [] → (pick_begin o).1.rr ≡ o.rr + 1
unfolding pick_begin
rr-pick_begin o small some_link = rr-pick_of (live o.closed o.pool) o small some_link

pick_of-get_elem? :
    (links : List ℕ) (o : Outbound)
    → links ≢ []
    → (l : ℕ) × ((pick_of links o).0 ≡ some l) × (get_elem? links (o.rr % length links) ≡ some l)
unfolding pick_of
pick_of-get_elem? [] o h = absurd (h refl)
pick_of-get_elem? (l ∷ links) o h =
    let (k, e) = get_elem?_there (l ∷ links) (o.rr % length (l ∷ links)) (omega arith) in (k, e, e)

-- With an open link in the pool, the picks take the open links in turn, by the counter.
picks_in_turn :
    (n : ℕ) (o : Outbound)
    → o.rr + n < 2 ^ 64
    → live o.closed o.pool ≢ []
    → let links = live o.closed o.pool in
      (l : ℕ) × ((pick_begin (after_picks n o)).0 ≡ some l)
      × (get_elem? links ((o.rr + n) % length links) ≡ some l)
unfolding after_picks pick_begin
picks_in_turn zero o small h =
    let e : o.rr ≡ o.rr + 0 = omega arith in
    let (l, p, k) = pick_of-get_elem? (live o.closed o.pool) o h in
    (
      l,
      p,
      ap (λ i. get_elem? (live o.closed o.pool) (i % length (live o.closed o.pool))) (sym e) ∙ k,
    )
picks_in_turn (suc n) o small h =
    let o' = (pick_begin o).1 in
    let links = live o.closed o.pool in
    let same = live-pick_begin o in
    let r = rr-pick_begin o (omega (arith, small)) h in
    let (l, p, k) =
      picks_in_turn n o' (omega (arith, r, small)) (subst (λ ls. ls ≢ []) (sym same) h) in
    let i : o'.rr + n ≡ o.rr + suc n = omega (arith, r) in
    (
      l,
      p,
      ap (λ j. get_elem? links (j % length links)) (sym i)
          ∙ subst (λ ls. get_elem? ls ((o'.rr + n) % length ls) ≡ some l) same k,
    )

no_link_left :
    (n : ℕ) (o : Outbound) → live o.closed o.pool ≡ [] → (pick_begin (after_picks n o)).0 ≡ none
unfolding after_picks pick_begin pick_of
no_link_left zero o h = ap (λ links. (pick_of links o).0) h
no_link_left (suc n) o h = no_link_left n (pick_begin o).1 (live-pick_begin o ∙ h)

-- After `n` picks between which no link closes and no dial answers, for a counter that does not reach
-- its 64 bits: where the pool has no open link, the next request is told to dial, and otherwise it
-- gets an open link of the pool, the one `n` places on in turn from the counter at the start, so that
-- requests one after another go round the open links.
pub pick_begin_open :
    (n : ℕ) (o : Outbound)
    → o.rr + n < 2 ^ 64
    → let links = live o.closed o.pool in
      ((links ≡ []) × ((pick_begin (after_picks n o)).0 ≡ none))
      ⊎ ((l : ℕ) × ((pick_begin (after_picks n o)).0 ≡ some l)
          × (is_closed o.closed l ≡ false)
          × (get_elem? links ((o.rr + n) % length links) ≡ some l))
pick_begin_open n o small = by_links (live o.closed o.pool) refl
  where
    by_links :
        (links : List ℕ)
        → live o.closed o.pool ≡ links
        → ((live o.closed o.pool ≡ []) × ((pick_begin (after_picks n o)).0 ≡ none))
          ⊎ ((l : ℕ) × ((pick_begin (after_picks n o)).0 ≡ some l)
              × (is_closed o.closed l ≡ false)
              × (get_elem? (live o.closed o.pool) ((o.rr + n) % length (live o.closed o.pool))
                  ≡ some l))
    by_links [] e = inl (e, no_link_left n o e)
    by_links (x ∷ links) e =
        let (l, p, k) =
          picks_in_turn n o small
            (λ none_open. let clash : x ∷ links ≡ [] = sym e ∙ none_open in absurd cc) in
        inr (l, p, live-open o.closed o.pool l (Mem-get_elem? _ _ l k), k)
