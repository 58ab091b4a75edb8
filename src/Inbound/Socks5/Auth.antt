-- ===== src/Inbound/Socks5/Auth.antt =====
-- What a client must have sent before src/inbound/socks5_inbound.cpp accepts a request, where the
-- inbound has a user or a password.
use shine.Prelude.{
  ℕ, ◌≡◌, refl, sym, ◌∙◌, ap, ap₂, subst, inl, inr, ◌⊎◌, [], ◌∷◌, ◌++◌, Option, true, not, Bytes,
  Mem, bytes_eq, bytes_eq_sound, get_or, length, ◌==◌, ==_iff, Bool-cases, arith,
}
use shine.Socket.{
  Conn, Progress, stops, goes, ◌>>=◌, guard, read_exact, write_all, Post, Post-bind, Post-pure,
  Post-weaken, read_exact-Post, guard-Post, write_all-Post,
}
use shine.Inbound.Socks5.{
  Account, require_auth, choose, select_method, read_counted, check_account, authenticate, auth_if,
  read_request, Accepted, accept_command, handle_client,
}

-- A text of one byte.
one_byte : (s : Bytes) → length s ≡ 1 → s ≡ get_or s 0 0 ∷ []
one_byte [] h = absurd (omega arith)
one_byte (a ∷ []) h = refl
one_byte (a ∷ b ∷ s) h = absurd (omega arith)

two_bytes : (s : Bytes) → length s ≡ 2 → s ≡ get_or s 0 0 ∷ get_or s 1 0 ∷ []
two_bytes [] h = absurd (omega arith)
two_bytes (a ∷ []) h = absurd (omega arith)
two_bytes (a ∷ b ∷ []) h = refl
two_bytes (a ∷ b ∷ d ∷ s) h = absurd (omega arith)

-- A text behind its length.
abbrev pub counted : Bytes → Bytes
counted a = length a ∷ a

pub read_counted-Post : (c : Conn) → Post (λ a c'. c.input ≡ counted a ++ c'.input) (read_counted c)
unfolding read_counted
read_counted-Post c = Post-bind _ _ (read_exact tt 1) _ c (read_exact-Post tt 1 c) λ n c1 h.
    Post-weaken (read_exact tt (get_or n 0 0) c1) (read_exact-Post tt (get_or n 0 0) c1) λ a c2 k.
      h.0
      ∙ ap (◌++◌ n) k.0
      ∙ ap (λ x. x ++ (a ++ c2.input)) (one_byte n h.1)
      ∙ ap (λ x. x ∷ (a ++ c2.input)) (sym k.1)

choose_cases :
    (methods : Bytes)
    → (choose true methods ≡ 0xFF) ⊎ ((choose true methods ≡ 0x02) × Mem 2 methods)
unfolding choose
choose_cases [] = inl refl
choose_cases (m ∷ methods) = elim (Bool-cases (m == 0x02)) [
  | inl e ↦ inr (rw e refl, inl (sym ((==_iff m 2).0 e)))
  | inr e ↦ elim (choose_cases methods) [ inl h ↦ inl (rw e h) | inr h ↦ inr (rw e h.0, inr h.1) ]
]

not-true : (a b : ℕ) → not (a == b) ≡ true → a ≡ b → ⊥
not-true a b h e = ground arith

-- A header of two bytes in front of a text of the length that it names.
header_text :
    (hdr a rest : Bytes) (b : ℕ)
    → length hdr ≡ 2
    → get_or hdr 0 0 ≡ b
    → length a ≡ get_or hdr 1 0
    → hdr ++ (a ++ rest) ≡ (b ∷ counted a) ++ rest
header_text hdr a rest b h first len =
    ap (λ x. x ++ (a ++ rest)) (two_bytes hdr h) ∙ ap₂ (λ x y. x ∷ y ∷ (a ++ rest)) first (sym len)

chosen_method : (methods : Bytes) → not (choose true methods == 0xFF) ≡ true → Mem 2 methods
chosen_method methods h = elim (choose_cases methods) [
  | inl e ↦ absurd (not-true _ _ h e)
  | inr m ↦ m.1
]

check_account_sound :
    (cfg : Account) (u p : Bytes)
    → (check_account cfg u p == 0) ≡ true
    → (u ≡ cfg.user) × (p ≡ cfg.pass)
unfolding check_account
check_account_sound cfg u p h = elim (Bool-cases (bytes_eq u cfg.user)) [
  | inl e ↦ elim (Bool-cases (bytes_eq p cfg.pass)) [
    | inl e' ↦ (bytes_eq_sound u cfg.user e, bytes_eq_sound p cfg.pass e')
    | inr e' ↦ absurd (ground arith)
  ]
  | inr e ↦ absurd (ground arith)
]

-- The method selection of an inbound that wants authentication.
abbrev HasMethod : Conn → Conn → Type 0
HasMethod c c' =
    (methods : Bytes) × Mem 2 methods × (c.input ≡ (0x05 ∷ counted methods) ++ c'.input)

select_method-Post :
    (cfg : Account) (c : Conn)
    → require_auth cfg ≡ true
    → Post (λ _ c'. HasMethod c c') (select_method cfg c)
unfolding select_method
select_method-Post cfg c auth =
    Post-bind _ _ (read_exact tt 2) _ c (read_exact-Post tt 2 c) λ hdr c1 h.
      Post-bind _ _ (guard _ tt) _ c1 (guard-Post (get_or hdr 0 0 == 0x05) tt c1) λ _ c2 five.
        Post-bind _ _ (guard _ tt) _ c2 (guard-Post (not (get_or hdr 1 0 == 0)) tt c2)
          λ _ c3 some_methods.
            Post-bind _ _ (read_exact tt (get_or hdr 1 0)) _ c3
              (read_exact-Post tt (get_or hdr 1 0) c3)
              λ methods c4 k. Post-bind _ _ (write_all tt _) _ c4 (write_all-Post tt _ c4) λ _ c5 w.
                Post-bind _ _ (guard _ tt) _ c5
                  (guard-Post (not (choose (require_auth cfg) methods == 0xFF)) tt c5)
                  λ _ c6 chosen.
                    Post-pure (Unit {0}) (λ _. HasMethod c) (choose (require_auth cfg) methods) c6
                      (
                        methods,
                        chosen_method methods
                            (subst (λ b. not (choose b methods == 0xFF) ≡ true) auth chosen.0),
                        h.0
                            ∙ ap (◌++◌ hdr) (sym five.1 ∙ sym some_methods.1 ∙ k.0)
                            ∙ header_text hdr methods c4.input 0x05 h.1 ((==_iff _ _).0 five.0) k.1
                            ∙ ap (◌++◌ (0x05 ∷ counted methods)) (sym w ∙ sym chosen.1),
                      )

-- The authentication.
authenticate-Post :
    (cfg : Account) (c : Conn)
    → Post
        (λ _ c'. c.input ≡ (0x01 ∷ counted cfg.user) ++ (counted cfg.pass ++ c'.input))
        (authenticate cfg c)
unfolding authenticate
authenticate-Post cfg c = Post-bind _ _ (read_exact tt 1) _ c (read_exact-Post tt 1 c) λ v c1 h.
    Post-bind _ _ (guard _ tt) _ c1 (guard-Post (get_or v 0 0 == 0x01) tt c1) λ _ c2 one.
      Post-bind _ _ read_counted _ c2 (read_counted-Post c2) λ u c3 hu.
        Post-bind _ _ read_counted _ c3 (read_counted-Post c3) λ p c4 hp.
          Post-bind _ _ (write_all tt _) _ c4 (write_all-Post tt _ c4) λ _ c5 w.
            Post-weaken (guard (check_account cfg u p == 0) tt c5)
              (guard-Post (check_account cfg u p == 0) tt c5)
              λ _ c6 good.
                let (same_u, same_p) = check_account_sound cfg u p good.0 in
                h.0
                ∙ ap (λ x. x ++ c1.input) (one_byte v h.1 ∙ ap (λ x. x ∷ []) ((==_iff _ _).0 one.0))
                ∙ ap (◌∷◌ 0x01) (
                    sym one.1
                    ∙ hu
                    ∙ ap (◌++◌ (counted u)) (hp ∙ ap (◌++◌ (counted p)) (sym w ∙ sym good.1)))
                ∙ ap₂ (λ x y. (0x01 ∷ counted x) ++ (counted y ++ c6.input)) same_u same_p

-- What the client sent before its request.
abbrev pub IsAuthenticated : Account → Bytes → Type 0
IsAuthenticated cfg input =
    (methods : Bytes) × (rest : Bytes) × Mem 2 methods
    × (input
        ≡ (0x05 ∷ counted methods) ++ ((0x01 ∷ counted cfg.user) ++ (counted cfg.pass ++ rest)))

any_request :
    {A : Type 0} (cfg : Account) (input : Bytes) (r : Progress (Unit {0}) A × Conn)
    → IsAuthenticated cfg input
    → Post (λ _ _. IsAuthenticated cfg input) r
unfolding Post
any_request cfg input (stops e, c) h = tt
any_request cfg input (goes a, c) h = h

auth_if-Post :
    (cfg : Account) (c : Conn)
    → require_auth cfg ≡ true
    → Post
        (λ _ c'. c.input ≡ (0x01 ∷ counted cfg.user) ++ (counted cfg.pass ++ c'.input))
        (auth_if (require_auth cfg) cfg c)
unfolding auth_if
auth_if-Post cfg c auth =
    subst
      (λ b.
        Post (λ _ c'. c.input ≡ (0x01 ∷ counted cfg.user) ++ (counted cfg.pass ++ c'.input))
          (auth_if b cfg c))
      (sym auth) (authenticate-Post cfg c)

handle_client-Post :
    (cfg : Account) (bound : Option (Bytes × ℕ)) (c : Conn)
    → require_auth cfg ≡ true
    → Post (λ _ _. IsAuthenticated cfg c.input) (handle_client cfg bound c)
unfolding handle_client
handle_client-Post cfg bound c auth =
    Post-bind _ _ (select_method cfg) _ c (select_method-Post cfg c auth)
      λ chosen c1 (methods, m, h).
        Post-bind _ _ (auth_if (require_auth cfg) cfg) _ c1 (auth_if-Post cfg c1 auth) λ _ c2 k.
          any_request cfg c.input ((read_request >>= accept_command bound) c2)
            (methods, c2.input, m, h ∙ ap (◌++◌ (0x05 ∷ counted methods)) k)

-- Where the inbound has a user or a password, every request that it accepts comes from a client that
-- has offered the method 2 and then sent an account with exactly that user and that password.
pub handle_client-IsAuthenticated :
    (cfg : Account) (bound : Option (Bytes × ℕ)) (c c' : Conn) (r : Accepted)
    → require_auth cfg ≡ true
    → handle_client cfg bound c ≡ (goes r, c')
    → IsAuthenticated cfg c.input
unfolding Post
handle_client-IsAuthenticated cfg bound c c' r auth h =
    subst (Post (λ _ _. IsAuthenticated cfg c.input)) h (handle_client-Post cfg bound c auth)
