-- ===== src/Scenarios/LogRuns.antt =====
-- internal/logstream/buffer.go on two containers of two pods.
use pg_console.Prelude.{
  ap, ℕ, ◌+◌, ◌≤◌, ◌≡◌, ◌≢◌, refl, Bool, true, false, some, List, [], ◌∷◌, String, arith,
  if◌then◌else◌,
}
use pg_console.Prelude.Eq.{string_eq, pair_eq, ◌==◌}
use pg_console.Prelude.Dict.{lookup, insert}
use pg_console.Prelude.Dict.Sums.{sum_by}
use pg_console.Logstream.Buffer.{
  StreamKey, Entry, Stream, Buffer, new_buffer, enabled, append, oldest_stream, tail, forget, Event,
  line_read, gap_seen, handle_all, handle, trim_total, trim_stream, push, size,
}
use pg_console.Logstream.Buffer.Events.{IsBounded, handle_all-IsBounded, tail-forget}
use pg_console.Logstream.Buffer.Isolation.{append-others, bytes_of}

abbrev line : String → String → ℕ → String → Event
line pod container at text =
    line_read (record { pod = pod; container = container; at = at; text = text })

abbrev events : List Event
events =
    line "db-0" "postgres" 1 "starting"
    ∷ line "db-1" "postgres" 2 "starting"
    ∷ line "db-0" "postgres" 3 "ready"
    ∷ gap_seen "db-1" "postgres" 4 "stream lost"
    ∷ []

-- A line takes 48 bytes and its text: of db-0's two the older one is dropped.
abbrev filled : Buffer
filled = handle_all events (new_buffer 120 300 0)

abbrev db_1 : Stream
db_1 = record {
  entries =
      record { at = 2; text = "starting"; gap = false }
      ∷ record { at = 4; text = "stream lost"; gap = true }
      ∷ [];
  bytes = 115;
}

oldest : oldest_stream filled.streams ≡ some (("db-0", "postgres"), 1)
unfolding handle_all handle enabled new_buffer append trim_total sum_by trim_stream push insert
    lookup size oldest_stream
oldest = refl

known : lookup ("db-1", "postgres") filled.streams ≡ some db_1
unfolding handle_all handle enabled new_buffer append trim_total sum_by trim_stream push insert
    lookup size oldest_stream
known = refl

handle_all-IsBounded_example : IsBounded filled
handle_all-IsBounded_example = handle_all-IsBounded events 120 300 0

filled_on : enabled filled ≡ true
unfolding handle_all handle enabled new_buffer append trim_total sum_by trim_stream push insert
    lookup size oldest_stream
filled_on = refl

abbrev other : Bool
other = ◌==◌ {K = String} "db-0" "db-1"

tail-forget_example :
    tail "db-0" "postgres" 9 (forget "db-1" filled)
    ≡ (if other then ([], false) else tail "db-0" "postgres" 9 filled)
tail-forget_example = tail-forget "db-1" "db-0" "postgres" 9 filled filled_on

abbrev next_line : Entry
next_line = record { at = 5; text = "accepting"; gap = false }

room : filled.bytes + filled.per_container ≤ filled.total + bytes_of ("db-0", "postgres") filled
unfolding handle_all handle enabled new_buffer append trim_total sum_by trim_stream push insert
    lookup size oldest_stream
room = omega arith

other_pod : ◌≢◌ {A = StreamKey} ("db-1", "postgres") ("db-0", "postgres")
other_pod e =
    let names : other ≡ true = ap (λ (k : StreamKey). ◌==◌ {K = String} "db-0" k.0) e in
    ground arith

append-others_example :
    lookup ("db-1", "postgres") (append ("db-0", "postgres") next_line filled).streams
    ≡ lookup ("db-1", "postgres") filled.streams
append-others_example =
    append-others ("db-0", "postgres") ("db-1", "postgres") next_line filled
      (handle_all-IsBounded events 120 300 0) other_pod room
