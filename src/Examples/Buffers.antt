-- ===== src/Examples/Buffers.antt =====
-- The read buffer on small vectors.
use shine.Prelude.{◌≡◌, refl, [], ◌∷◌, ◌++◌, codes, arith}
use shine.Core.ReadBuffer.{
  ReadBuffer, IsValid, create, contents, compact, settle, consume, committed, fill,
}
use shine.Core.ReadBuffer.Queue.{made, commits, consumes, Queue-contents}

-- "abcdef" in a vector of 8, with "ab" consumed.
abbrev partly_read : ReadBuffer
partly_read = record { buf = codes "abcdef" ++ (0 ∷ 0 ∷ []); head = 2; size = 6 }

-- The bytes that are left move to the front once more than half of the vector is consumed.
moved : (consume 3 partly_read).buf ≡ codes "fbcdef" ++ (0 ∷ 0 ∷ [])
unfolding consume settle compact
moved = refl

abbrev used : ReadBuffer
used = consume 3 (committed 6 (fill (codes "abcdef") (create 8)))

Queue-contents_example : IsValid used × (contents used ≡ codes "def")
unfolding create
Queue-contents_example =
    Queue-contents {initial = 8} (consumes 3 (commits (codes "abcdef") made (omega arith)))
