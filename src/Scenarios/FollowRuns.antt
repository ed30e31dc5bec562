-- ===== src/Scenarios/FollowRuns.antt =====
-- internal/logstream/logstream.go and runner.go on a short run of a follower.
use pg_console.Prelude.{
  ℕ, ◌*◌, ◌≤◌, length, String, ◌≡◌, refl, inl, inr, true, false, not, ◌&&◌, Option, none, some,
  List, [], ◌∷◌, ◌++◌, eqb, if◌then◌else◌, arith,
}
use pg_console.Prelude.Eq.{==_iff, string_eq}
use pg_console.Prelude.Dict.{lookup}
use pg_console.Logstream.Texts.{Bytes}
use pg_console.Logstream.Matcher.{Member, Line, new_matcher, max_observed_line, observation_key_eq}
use pg_console.Logstream.Rules.{text, Members, no_members, member, Rule}
use pg_console.Logstream.Matcher.Account.{
  IsAbsent, IsOnly, observe_all, hits, account, observe_all-account,
}
use pg_console.Logstream.Matcher.Memory.{among, AreFrom, line_length, observe_all-IsBounded}
use pg_console.Logstream.Runner.{
  dropped, Effect, detached, Round, unopened, opened, ended, interrupted, follow, has, reconcile,
  follow_from, read_once, read_lines, reason_of, next_backoff,
}
use pg_console.Logstream.Runner.Paced.{delays, paces, waits_of, follow-delays}
use pg_console.Logstream.Runner.Covered.{effects_of, follow_runs, IsCovered, follow-IsCovered}
use pg_console.Logstream.Runner.Roster.{is_cancelled, is_started, IsUnique, reconcile_lem}

-- `no space` and `{"msg":"no space"}`, of which the second decodes.
abbrev plain_text : Bytes
plain_text = 110 ∷ 111 ∷ 32 ∷ 115 ∷ []

abbrev json_text : Bytes
json_text = 123 ∷ 110 ∷ 111 ∷ 32 ∷ 115 ∷ []

abbrev decode_json : Bytes → Option Members
decode_json [] = none
decode_json (b ∷ rest) = if eqb b 123 then some (member (109 ∷ []) (text rest) no_members) else none

abbrev by_text : Rule
by_text = record {
  id = "text";
  contains = plain_text ∷ [];
  except = [];
  fields = [];
  summary = "full";
}

abbrev by_field : Rule
by_field = record {
  id = "field";
  contains = [];
  except = [];
  fields = record { path = 109 ∷ []; equals = plain_text; contains = [] } ∷ [];
  summary = "full";
}

abbrev said : Bytes → ℕ → Line
said t at = record { pod = "web-1"; container = "postgres"; text = t; at = at }

abbrev said_lines : List Line
said_lines = said json_text 5 ∷ said plain_text 6 ∷ said (1 ∷ []) 7 ∷ said json_text 9 ∷ []

observe_all-account_example :
    lookup
      ("field", "web-1", "postgres")
      (observe_all decode_json said_lines (new_matcher (by_text ∷ by_field ∷ []) 0)).observed
    ≡ account by_field (hits decode_json by_field "web-1" "postgres" said_lines)
observe_all-account_example =
    observe_all-account decode_json by_field "web-1" "postgres" (by_text ∷ by_field ∷ []) 0
      said_lines
      (unfold IsOnly IsAbsent in
        inr ((λ e. ground (arith, (==_iff {K = String} "text" "field").1 e)), inl (refl, tt)))

abbrev web : Member
web = ("web-1", "postgres")

abbrev rounds : List Round
rounds =
    record {
      stream = unopened;
      stopped_reading = false;
      gap_at = 2;
      detached_at = 2;
      stopped_waiting = false;
    }
    ∷ record {
      stream = opened 3 (record { text = plain_text; at = 4 } ∷ []) ended;
      stopped_reading = false;
      gap_at = 5;
      detached_at = 5;
      stopped_waiting = false;
    }
    ∷ record {
      stream = opened 9 [] interrupted;
      stopped_reading = true;
      gap_at = 0;
      detached_at = 0;
      stopped_waiting = false;
    }
    ∷ []

follow-delays_example : delays (follow web 1 rounds) ≡ paces 0 (waits_of rounds)
follow-delays_example = follow-delays web 1 rounds

-- The effects of two followers of `web`, one after the other, between those of another container's.
abbrev mixed : List Effect
mixed =
    detached ("web-2", "postgres") 1 "" ∷ follow web 1 rounds
    ++ dropped ("web-2", "postgres") ∷ follow web 90 rounds

mixed_effects : effects_of web mixed ≡ follow_runs web ((1, rounds) ∷ (90, rounds) ∷ [])
unfolding effects_of follow_runs follow follow_from read_once read_lines reason_of next_backoff
mixed_effects = refl

follow-IsCovered_example : IsCovered decode_json web (new_matcher (by_field ∷ []) 0) mixed
follow-IsCovered_example =
    follow-IsCovered decode_json web 1 rounds ((90, rounds) ∷ []) mixed
      (new_matcher (by_field ∷ []) 0) mixed_effects

abbrev gone : Member
gone = ("web-0", "postgres")

reconcile_lem_example :
    (has web (reconcile (web ∷ web ∷ []) (gone ∷ [])).0 ≡ has web (web ∷ web ∷ []))
    × ((is_cancelled web (reconcile (web ∷ web ∷ []) (gone ∷ [])).1
          ≡ (has web (gone ∷ []) && not (has web (web ∷ web ∷ []))))
        × ((is_started web (reconcile (web ∷ web ∷ []) (gone ∷ [])).1
              ≡ (has web (web ∷ web ∷ []) && not (has web (gone ∷ []))))
            × IsUnique (reconcile (web ∷ web ∷ []) (gone ∷ [])).0))
reconcile_lem_example =
    reconcile_lem web (web ∷ web ∷ []) (gone ∷ []) (unfold IsUnique has in (refl, tt))

observe_all-IsBounded_example :
    (length (observe_all decode_json said_lines (new_matcher (by_text ∷ by_field ∷ []) 0)).observed
      ≤ 2 * 1)
    × (line_length (
          lookup
            ("field", "web-1", "postgres")
            (observe_all decode_json said_lines (new_matcher (by_text ∷ by_field ∷ []) 0)).observed)
        ≤ max_observed_line)
observe_all-IsBounded_example =
    observe_all-IsBounded decode_json (web ∷ []) (by_text ∷ by_field ∷ []) 0 said_lines
      ("field", "web-1", "postgres") (unfold AreFrom among in (refl, (refl, (refl, (refl, tt)))))
