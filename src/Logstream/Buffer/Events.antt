-- ===== src/Logstream/Buffer/Events.antt =====
-- The buffer over any sequence of lines, gaps and ended pods.
use pg_console.Prelude.{ℕ, ◌≤◌, ◌≡◌, refl, true, false, List, [], ◌∷◌, String, arith, if◌then◌else◌}
use pg_console.Prelude.Eq.{◌==◌, pair_eq, string_eq}
use pg_console.Prelude.Dict.{lookup}
use pg_console.Prelude.Dict.Sums.{sum_by}
use pg_console.Logstream.Buffer.{
  StreamKey, Entry, Buffer, new_buffer, append, forget, tail, enabled, Event, line_read, gap_seen,
  pod_gone, handle, handle_all,
}
use pg_console.Logstream.Buffer.Sound.{IsSound, append-IsSound}
use pg_console.Logstream.Buffer.Bounds.{AllWithin, append-AllWithin, append-within, total-append}
use pg_console.Logstream.Buffer.Forget.{
  lookup-forget_streams, forget-IsSound, forget-AllWithin, bytes_forget-le, total-forget,
}

-- What holds of a buffer between two events.
pub record IsBounded (b : Buffer) : Type 0 where
  pub sound : IsSound b
  pub each : AllWithin b
  pub whole : b.bytes ≤ b.total

append-IsBounded :
    (key : StreamKey) (e : Entry) (b : Buffer) → IsBounded b → IsBounded (append key e b)
append-IsBounded key e b h = record {
  sound = append-IsSound key e b h.sound;
  each = append-AllWithin key e b h.sound h.each;
  whole = omega (arith, append-within key e b h.sound, total-append key e b);
}

forget-IsBounded : (pod : String) (b : Buffer) → IsBounded b → IsBounded (forget pod b)
forget-IsBounded pod b h = record {
  sound = forget-IsSound pod b h.sound;
  each = forget-AllWithin pod b h.each;
  whole = omega (arith, h.whole, bytes_forget-le pod b, total-forget pod b);
}

handle-IsBounded : (event : Event) (b : Buffer) → IsBounded b → IsBounded (handle event b)
unfolding handle
handle-IsBounded (line_read line) b h =
    let e : Entry = record { at = line.at; text = line.text; gap = false } in
    ground (arith, append-IsBounded (line.pod, line.container) e b h)
handle-IsBounded (gap_seen pod container at reason) b h =
    let e : Entry = record { at = at; text = reason; gap = true } in
    ground (arith, append-IsBounded (pod, container) e b h)
handle-IsBounded (pod_gone pod) b h = forget-IsBounded pod b h

handle_all-keeps :
    (events : List Event) (b : Buffer) → IsBounded b → IsBounded (handle_all events b)
unfolding handle_all
handle_all-keeps [] b h = h
handle_all-keeps (event ∷ events) b h =
    handle_all-keeps events (handle event b) (handle-IsBounded event b h)

new_buffer-IsBounded :
    (per_container total max_age : ℕ) → IsBounded (new_buffer per_container total max_age)
unfolding new_buffer sum_by lookup
new_buffer-IsBounded per_container total max_age = record {
  sound = record {
    distinct = tt;
    filled = λ k s p. absurd (ground arith);
    exact = λ k s p. absurd (ground arith);
    summed = refl;
  };
  each = λ k s p. absurd (ground arith);
  whole = omega arith;
}

-- From a new buffer, after any events, no stream is empty or stands twice, every stream's byte
-- count is the sum of its entries' sizes and at most the bound for one container, and the buffer's
-- byte count is the sum over its streams and at most the total bound.
pub handle_all-IsBounded :
    (events : List Event) (per_container total max_age : ℕ)
    → IsBounded (handle_all events (new_buffer per_container total max_age))
handle_all-IsBounded events per_container total max_age =
    handle_all-keeps events (new_buffer per_container total max_age)
      (new_buffer-IsBounded per_container total max_age)

-- In an enabled buffer `Forget` of a pod leaves nothing to read for any container of that pod,
-- and what is read for every other pod is unchanged.
pub tail-forget :
    (pod p container : String) (now : ℕ) (b : Buffer)
    → enabled b ≡ true
    → tail p container now (forget pod b)
      ≡ (if p == pod then ([], false) else tail p container now b)
unfolding tail forget
tail-forget pod p container now b on =
    ground (arith, lookup-forget_streams pod (p, container) b.streams)

disabled_stays : (event : Event) (b : Buffer) → enabled b ≡ false → handle event b ≡ b
unfolding handle
disabled_stays (line_read line) b off = ground arith
disabled_stays (gap_seen pod container at reason) b off = ground arith
disabled_stays (pod_gone pod) b off = ground arith

disabled_idle : (events : List Event) (b : Buffer) → enabled b ≡ false → handle_all events b ≡ b
unfolding handle_all
disabled_idle [] b off = refl
disabled_idle (event ∷ events) b off = rw (disabled_stays event b off) (disabled_idle events b off)

disabled_silent :
    (pod container : String) (now : ℕ) (b : Buffer)
    → enabled b ≡ false
    → tail pod container now b ≡ ([], false)
unfolding tail
disabled_silent pod container now b off = ground arith

-- A buffer with a bound of zero never holds anything, whatever the events, and reads as holding
-- nothing for every container.
pub disabled_holds_nothing :
    (events : List Event) (per_container total max_age : ℕ) (pod container : String) (now : ℕ)
    → enabled (new_buffer per_container total max_age) ≡ false
    → (handle_all events (new_buffer per_container total max_age)
        ≡ new_buffer per_container total max_age)
      × (tail pod container now (handle_all events (new_buffer per_container total max_age))
          ≡ ([], false))
disabled_holds_nothing events per_container total max_age pod container now off =
    let b = new_buffer per_container total max_age in
    let same = disabled_idle events b off in
    (same, rw same (disabled_silent pod container now b off))
