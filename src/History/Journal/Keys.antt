-- ===== src/History/Journal/Keys.antt =====
-- The bucket keys of the revisions.
use pg_console.Prelude.{ℕ, ◌^◌, ◌<◌, ◌≡◌, sym, ap, ◌∙◌, arith}
use pg_console.History.Journal.{seq_key, uint64_of}

-- Reading a written key gives the sequence number back.
pub uint64_of-seq_key : (seq : ℕ) → seq < 2 ^ 64 → uint64_of (seq_key seq) ≡ seq
unfolding uint64_of seq_key
uint64_of-seq_key seq h = omega arith

pub seq_key_injective : (s t : ℕ) → s < 2 ^ 64 → t < 2 ^ 64 → seq_key s ≡ seq_key t → s ≡ t
seq_key_injective s t hs ht e =
    sym (uint64_of-seq_key s hs) ∙ ap uint64_of e ∙ uint64_of-seq_key t ht
