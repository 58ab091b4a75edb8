-- ===== src/Socket.antt =====
-- A TCP connection as the handlers use it: `asio::async_read` of an exact number of bytes and
-- `asio::async_write` of all bytes, as functions on what the peer has sent and was sent, and on how
-- many more writes it takes. A coroutine that returns early stops with a value of `E`.
use shine.Prelude.{
  ℕ, zero, suc, ◌≡◌, refl, sym, ap, ◌∙◌, [], ◌∷◌, ◌++◌, Option, none, some, Bool, true, false,
  Bytes, length, append-nil, arith,
}

pub record Conn : Type 0 where
  pub input : Bytes
  pub output : Bytes
  pub writes_left : ℕ

pub data Progress (E A : Type 0) : Type 0 where
  stops : E → Progress E A
  goes : A → Progress E A

abbrev pub Io : Type 0 → Type 0 → Type 0
Io E A = Conn → Progress E A × Conn

module _ {E : Type 0} where
  abbrev pub after : {A B : Type 0} → Progress E A → Conn → (A → Io E B) → Progress E B × Conn
  after (stops e) c f = (stops e, c)
  after (goes a) c f = f a c

  infixl 5 ◌>>=◌ ◌>>◌
  abbrev pub ◌>>=◌ : {A B : Type 0} → Io E A → (A → Io E B) → Io E B
  ◌>>=◌ m f c = after (m c).0 (m c).1 f

  abbrev pub ◌>>◌ : {B : Type 0} → Io E (Unit {0}) → Io E B → Io E B
  m >> k = m >>= λ _. k

  abbrev pub pure : {A : Type 0} → A → Io E A
  pure a c = (goes a, c)

  abbrev pub stop : {A : Type 0} → E → Io E A
  stop e c = (stops e, c)

  -- `if (!test) co_return e;`
  abbrev pub guard : Bool → E → Io E (Unit {0})
  guard true e = pure tt
  guard false e = stop e

-- The first `n` bytes and what follows them, where there are so many.
unfoldable pub exactly : ℕ → Bytes → Option (Bytes × Bytes)
exactly zero s = some ([], s)
exactly (suc n) [] = none
exactly (suc n) (b ∷ s) = elim (exactly n s) [ none ↦ none | some (a, rest) ↦ some (b ∷ a, rest) ]

unfoldable pub taken : {E : Type 0} → E → Option (Bytes × Bytes) → Io E Bytes
taken e none c = (stops e, c)
taken e (some (a, rest)) c = (goes a, record c { input = rest })

-- `readExact`. A read that fails may have used up bytes; nothing is read after it.
unfoldable pub read_exact : {E : Type 0} → E → ℕ → Io E Bytes
read_exact e n c = taken e (exactly n c.input) c

-- `writeAll`.
unfoldable pub written_to : {E : Type 0} → E → ℕ → Bytes → Io E (Unit {0})
written_to e zero s c = (stops e, c)
written_to e (suc n) s c = (goes tt, record c { output = c.output ++ s; writes_left = n })

unfoldable pub write_all : {E : Type 0} → E → Bytes → Io E (Unit {0})
write_all e s c = written_to e c.writes_left s c

-- What is read off the front of a text whose length is asked for.
pub exactly-append :
    (n : ℕ) (s rest : Bytes) → n ≡ length s → exactly n (s ++ rest) ≡ some (s, rest)
unfolding exactly
exactly-append zero [] rest e = refl
exactly-append zero (b ∷ s) rest e = absurd (omega arith)
exactly-append (suc n) [] rest e = absurd (omega arith)
exactly-append (suc n) (b ∷ s) rest e = rw (exactly-append n s rest (omega arith)) refl

abbrev Cut : ℕ → Bytes → Option (Bytes × Bytes) → Type 0
Cut n s none = Unit
Cut n s (some (a, rest)) = (s ≡ a ++ rest) × (length a ≡ n)

Cut-cons :
    (n b : ℕ) (s : Bytes) (o : Option (Bytes × Bytes))
    → Cut n s o
    → Cut (suc n) (b ∷ s) (elim o [ none ↦ none | some (a, rest) ↦ some (b ∷ a, rest) ])
Cut-cons n b s none h = tt
Cut-cons n b s (some (a, rest)) h = (ap (◌∷◌ b) h.0, ap suc h.1)

exactly-Cut : (n : ℕ) (s : Bytes) → Cut n s (exactly n s)
unfolding exactly
exactly-Cut zero s = (refl, refl)
exactly-Cut (suc n) [] = tt
exactly-Cut (suc n) (b ∷ s) = Cut-cons n b s (exactly n s) (exactly-Cut n s)

-- What holds of a run that goes on.
unfoldable pub Post : {E A : Type 0} → (A → Conn → Type 0) → Progress E A × Conn → Type 0
Post P (stops e, c) = Unit
Post P (goes a, c) = P a c

pub Post-bind :
    {E A B : Type 0} (P : A → Conn → Type 0) (Q : B → Conn → Type 0) (m : Io E A) (f : A → Io E B)
    (c : Conn)
    → Post P (m c)
    → ((a : A) (c' : Conn) → P a c' → Post Q (f a c'))
    → Post Q ((m >>= f) c)
unfolding Post
Post-bind {E} {A} {B} P Q m f c h k = on_result (m c).0 (m c).1 h
  where
    on_result : (r : Progress E A) (c' : Conn) → Post P (r, c') → Post Q (after r c' f)
    on_result (stops e) c' h' = tt
    on_result (goes a) c' h' = k a c' h'

pub Post-weaken :
    {E A : Type 0} {P Q : A → Conn → Type 0} (r : Progress E A × Conn)
    → Post P r
    → ((a : A) (c : Conn) → P a c → Q a c)
    → Post Q r
unfolding Post
Post-weaken (stops e, c) h k = tt
Post-weaken (goes a, c) h k = k a c h

pub Post-pure :
    (E : Type 0) {A : Type 0} (P : A → Conn → Type 0) (a : A) (c : Conn)
    → P a c
    → Post P (pure {E = E} a c)
unfolding Post
Post-pure E P a c h = h

pub read_exact-Post :
    {E : Type 0} (e : E) (n : ℕ) (c : Conn)
    → Post (λ a c'. (c.input ≡ a ++ c'.input) × (length a ≡ n)) (read_exact e n c)
unfolding read_exact taken Post
read_exact-Post {E} e n c = of_cut (exactly n c.input) (exactly-Cut n c.input)
  where
    of_cut :
        (o : Option (Bytes × Bytes))
        → Cut n c.input o
        → Post (λ a c'. (c.input ≡ a ++ c'.input) × (length a ≡ n)) (taken e o c)
    of_cut none h = tt
    of_cut (some (a, rest)) h = h

pub guard-Post :
    {E : Type 0} (b : Bool) (e : E) (c : Conn)
    → Post (λ _ c'. (b ≡ true) × (c'.input ≡ c.input)) (guard b e c)
unfolding Post
guard-Post true e c = (refl, refl)
guard-Post false e c = tt

pub write_all-Post :
    {E : Type 0} (e : E) (s : Bytes) (c : Conn)
    → Post (λ _ c'. c'.input ≡ c.input) (write_all e s c)
unfolding write_all written_to Post
write_all-Post {E} e s c = with_writes c.writes_left
  where
    with_writes : (n : ℕ) → Post (λ _ c'. c'.input ≡ c.input) (written_to e n s c)
    with_writes zero = tt
    with_writes (suc n) = refl

-- A read of bytes that are there.
pub read_exact-append :
    {E : Type 0} (e : E) (n : ℕ) (s rest : Bytes) (c : Conn)
    → c.input ≡ s ++ rest
    → n ≡ length s
    → read_exact e n c ≡ (goes s, record c { input = rest })
unfolding read_exact taken
read_exact-append e n s rest c h len =
    ap (λ o. taken e o c) (ap (exactly n) h ∙ exactly-append n s rest len)

-- The same where nothing follows them.
pub read_exact_all :
    {E : Type 0} (e : E) (n : ℕ) (s : Bytes) (c : Conn)
    → c.input ≡ s
    → n ≡ length s
    → read_exact e n c ≡ (goes s, record c { input = [] })
read_exact_all e n s c h len = read_exact-append e n s [] c (h ∙ sym (append-nil s)) len
