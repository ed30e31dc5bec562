-- ===== src/Logstream/Buffer/Forget.antt =====
-- `Forget` drops the streams of one pod, with their bytes.
use pg_console.Prelude.{◌+◌, ◌-◌, ◌≤◌, ◌≡◌, none, [], ◌∷◌, String, arith, if◌then◌else◌}
use pg_console.Prelude.Eq.{◌==◌, pair_eq, string_eq, ==_iff}
use pg_console.Prelude.Dict.{Dict, lookup}
use pg_console.Prelude.Dict.Sums.{sum_by, Distinct}
use pg_console.Logstream.Buffer.{StreamKey, Stream, Buffer, forget_streams, forgotten_bytes, forget}
use pg_console.Logstream.Buffer.Sound.{IsSound, stream_bytes}
use pg_console.Logstream.Buffer.Bounds.{AllWithin}

pub lookup-forget_streams :
    (pod : String) (k : StreamKey) (m : Dict StreamKey Stream)
    → lookup k (forget_streams pod m) ≡ (if k.0 == pod then none else lookup k m)
unfolding lookup forget_streams
lookup-forget_streams pod k [] = ground arith
lookup-forget_streams pod (p, c) (((q, d), s) ∷ m) =
    ground (
      arith,
      lookup-forget_streams pod (p, c) m,
      ==_iff q pod,
      ==_iff p pod,
      ==_iff q p,
      ==_iff d c,
    )

Distinct-forget_streams :
    (pod : String) (m : Dict StreamKey Stream) → Distinct m → Distinct (forget_streams pod m)
unfolding forget_streams
Distinct-forget_streams pod [] d = tt
Distinct-forget_streams pod (((q, c), s) ∷ m) d =
    ground (arith, Distinct-forget_streams pod m d.1, lookup-forget_streams pod (q, c) m)

sum_by-forget_streams :
    (pod : String) (m : Dict StreamKey Stream)
    → sum_by stream_bytes (forget_streams pod m) + forgotten_bytes pod m ≡ sum_by stream_bytes m
unfolding forget_streams forgotten_bytes sum_by
sum_by-forget_streams pod [] = omega arith
sum_by-forget_streams pod (((q, c), s) ∷ m) = ground (arith, sum_by-forget_streams pod m)

forgotten :
    (pod : String) (b : Buffer)
    → IsSound b
    → IsSound (record b {
      streams = forget_streams pod b.streams;
      bytes = b.bytes - forgotten_bytes pod b.streams;
    })
forgotten pod b h = record {
  distinct = Distinct-forget_streams pod b.streams h.distinct;
  filled = λ k s p. ground (arith, lookup-forget_streams pod k b.streams, h.filled k s);
  exact = λ k s p. ground (arith, lookup-forget_streams pod k b.streams, h.exact k s);
  summed = omega (arith, h.summed, sum_by-forget_streams pod b.streams);
}

pub forget-IsSound : (pod : String) (b : Buffer) → IsSound b → IsSound (forget pod b)
unfolding forget
forget-IsSound pod b h = ground (arith, forgotten pod b h)

pub forget-AllWithin : (pod : String) (b : Buffer) → AllWithin b → AllWithin (forget pod b)
unfolding forget
forget-AllWithin pod b w k s p = ground (arith, lookup-forget_streams pod k b.streams, w k s)

pub bytes_forget-le : (pod : String) (b : Buffer) → (forget pod b).bytes ≤ b.bytes
unfolding forget
bytes_forget-le pod b = ground arith

pub total-forget : (pod : String) (b : Buffer) → (forget pod b).total ≡ b.total
unfolding forget
total-forget pod b = ground arith
