-- ===== src/Rounds.antt =====
-- Two sides of a connection that read what the other one writes, with nothing there at first. It is
-- about the dialogues of src/transport/link.cpp and of the SOCKS5 parts.
use shine.Prelude.{ℕ, zero, suc, ◌≡◌, refl}

-- Each side is a function from what it was sent to what it writes before it stops for want of more.
-- In a round the client is run on all that the server has written so far, and then the server on all
-- that the client has.
unfoldable pub talk : {A B : Type 0} → (B → A) → (A → B) → ℕ → A × B → A × B
talk client server zero said = said
talk client server (suc n) said = talk client server n (client said.1, server (client said.1))

-- Where neither side has more to write, further rounds change nothing.
pub talk_settled :
    {A B : Type 0} (client : B → A) (server : A → B) (a : A) (b : B) (n : ℕ)
    → client b ≡ a
    → server a ≡ b
    → talk client server n (a, b) ≡ (a, b)
unfolding talk
talk_settled client server a b zero c s = refl
talk_settled client server a b (suc n) c s = rw (c, s) (talk_settled client server a b n c s)

-- A round in which both sides' answers are known.
pub talk_round :
    {A B : Type 0} (client : B → A) (server : A → B) (a' : A) (b b' : B) (n : ℕ) (a : A)
    → client b ≡ a'
    → server a' ≡ b'
    → talk client server (suc n) (a, b) ≡ talk client server n (a', b')
unfolding talk
talk_round client server a' b b' n a c s = rw (c, s) refl
