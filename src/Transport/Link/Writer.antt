-- ===== src/Transport/Link/Writer.antt =====
-- `Link::writerLoop` of src/transport/link.cpp: the messages of the write channel are written to the
-- socket one after another.
pub mod Crossing
use shine.Prelude.{List, [], ◌∷◌, ◌++◌, Bool, true, false, Bytes}
use shine.Transport.Link.State.{Link, Output, fail_link}

-- The bytes that went out, and the link with the calls that it made.
abbrev pub Written : Type 0
Written = Bytes × (Link × List Output)

unfoldable pub on_message : Written → Link → Bytes → Bool → Written
on_message rest l [] answer = rest
on_message rest l (b ∷ message) true = ((b ∷ message) ++ rest.0, rest.1)
on_message rest l (b ∷ message) false = ([], fail_link l)

unfoldable pub while_open : Bool → Link → Written → Written
while_open true l r = ([], (l, []))
while_open false l r = r

-- The loop on the messages that the channel gives, each with what its write answers.
unfoldable pub writer_loop : Link → List (Bytes × Bool) → Written
writer_loop l [] = ([], (l, []))
writer_loop l ((message, answer) ∷ messages) =
    while_open l.closed l (on_message (writer_loop l messages) l message answer)
