-- ===== src/Logstream/Runner/Covered.antt =====
-- internal/logstream/runner.go with logstream.go: what the followers tell the matcher.
use pg_console.Prelude.{
  ℕ, ◌≡◌, refl, ◌∙◌, sym, subst, inl, inr, arith, Bool, true, false, Option, none, some, List, [],
  ◌∷◌, ◌++◌, if◌then◌else◌, Bool-cases,
}
use pg_console.Prelude.Eq.{◌==◌, ==_iff, ==_refl, string_eq, pair_eq}
use pg_console.Prelude.Dict.{lookup, lookup-insert, lookup-remove}
use pg_console.Logstream.Texts.{Bytes}
use pg_console.Logstream.Matcher.{
  Member, Matcher, Unread, since_of, observe, attached as attach, detached as detach,
  dropped as drop,
}
use pg_console.Logstream.Rules.{Members}
use pg_console.Logstream.Runner.{
  Effect, observed, gap, attached, detached, dropped, waits, Scanned, Stream, unopened, opened,
  Round, read_lines, read_once, reason_of, follow_from, follow, next_backoff, reconnect_min,
}

abbrev pub member_of : Effect → Member
member_of (observed l) = (l.pod, l.container)
member_of (gap x at reason) = x
member_of (attached x at) = x
member_of (detached x at reason) = x
member_of (dropped x) = x
member_of (waits x d) = x

-- The effects of one follower among those of all.
unfoldable pub effects_of : Member → List Effect → List Effect
effects_of x [] = []
effects_of x (e ∷ es) = let rest = effects_of x es in if member_of e == x then e ∷ rest else rest

-- What the matcher is to know of a container at an effect of its follower: that it is read when a
-- line arrives, and that it is not during a wait.
unfoldable pub Knows : Effect → Option Unread → Type 0
Knows (observed l) w = w ≡ none
Knows (waits x d) w = (u : Unread) × (w ≡ some u)
Knows _ w = Unit

module _ (decode : Bytes → Option Members) where
  unfoldable pub tell : Effect → Matcher → Matcher
  tell (observed l) m = observe decode l m
  tell (gap x at reason) m = m
  tell (attached (pod, container) at) m = attach pod container at m
  tell (detached (pod, container) at reason) m = detach pod container at reason m
  tell (dropped (pod, container)) m = drop pod container m
  tell (waits x d) m = m

  -- The matcher knows it at every effect of the follower of `x`, and holds no window at the end.
  unfoldable pub IsCovered : Member → Matcher → List Effect → Type 0
  IsCovered x m [] = lookup x m.unread ≡ none
  IsCovered x m (e ∷ es) =
      (member_of e ≡ x → Knows e (lookup x m.unread)) × IsCovered x (tell e m) es

abbrev window_after : Effect → Option Unread → Option Unread
window_after (attached x at) w = none
window_after (detached (pod, container) at reason) w =
    some (record { pod = pod; container = container; since = since_of w at; reason = reason })
window_after (dropped x) w = none
window_after _ w = w

unfoldable IsAlone : Option Unread → List Effect → Type 0
IsAlone w [] = w ≡ none
IsAlone w (e ∷ es) = Knows e w × IsAlone (window_after e w) es

lookup-tell :
    (decode : Bytes → Option Members) (x : Member) (e : Effect) (m : Matcher)
    → lookup x (tell decode e m).unread
      ≡ (if member_of e == x then window_after e (lookup x m.unread) else lookup x m.unread)
unfolding tell observe attach detach drop
lookup-tell decode x (observed l) m = ground arith
lookup-tell decode x (gap y at reason) m = ground arith
lookup-tell decode x (attached (pod, container) at) m = lookup-remove (pod, container) x m.unread
lookup-tell decode x (detached (pod, container) at reason) m =
    elim (Bool-cases ((pod, container) == x)) [
      | inl same ↦ rw same (
          rw (sym ((==_iff (pod, container) x).0 same)) (
            lookup-insert (pod, container) (pod, container) _ m.unread
            ∙ rw (==_refl {K = Member} (pod, container)) refl))
      | inr other ↦ rw other (lookup-insert (pod, container) x _ m.unread ∙ rw other refl)
    ]
lookup-tell decode x (dropped (pod, container)) m = lookup-remove (pod, container) x m.unread
lookup-tell decode x (waits y d) m = ground arith

read_lines-IsAlone :
    (x : Member) (lines : List Scanned) (es : List Effect)
    → IsAlone none es
    → IsAlone none (read_lines x lines ++ es)
unfolding read_lines IsAlone Knows
read_lines-IsAlone (pod, container) [] es alone = alone
read_lines-IsAlone (pod, container) (s ∷ lines) es alone =
    (refl, read_lines-IsAlone (pod, container) lines es alone)

read_once-IsAlone :
    (x : Member) (stream : Stream) (es : List Effect) (w : Option Unread)
    → ((v : Option Unread) → IsAlone v es)
    → IsAlone w (read_once x stream ++ es)
unfolding read_once IsAlone Knows
read_once-IsAlone x unopened es w alone = alone w
read_once-IsAlone x (opened at lines ending) es w alone =
    (tt, read_lines-IsAlone x lines es (alone none))

-- What a round does after the stream.
round-IsAlone :
    (x : Member) (r : Round) (backoff : ℕ) (rest : List Effect)
    → ((u : Unread) → IsAlone (some u) rest)
    → (w : Option Unread)
    → IsAlone w (
        if r.stopped_reading
        then dropped x ∷ []
        else gap x r.gap_at (reason_of r.stream)
          ∷ detached x r.detached_at (reason_of r.stream)
          ∷ waits x backoff
          ∷ (if r.stopped_waiting then dropped x ∷ [] else rest))
unfolding IsAlone Knows
round-IsAlone x r backoff rest alone w = elim (Bool-cases r.stopped_reading) [
  | inl stopped ↦ rw stopped (tt, refl)
  | inr going ↦ rw going (elim (Bool-cases r.stopped_waiting) [
    | inl stopped ↦ rw stopped (tt, (tt, ((_, refl), (tt, refl))))
    | inr going_on ↦ rw going_on (tt, (tt, ((_, refl), alone _)))
  ])
]

follow_from-IsAlone :
    (x : Member) (backoff : ℕ) (rounds : List Round) (u : Unread)
    → IsAlone (some u) (follow_from x backoff rounds)
unfolding follow_from IsAlone Knows
follow_from-IsAlone x backoff [] u = (tt, refl)
follow_from-IsAlone x backoff (r ∷ rounds) u =
    read_once-IsAlone x r.stream _ (some u)
      (round-IsAlone x r backoff _ (follow_from-IsAlone x (next_backoff backoff) rounds))

IsAlone-append :
    (w : Option Unread) (es rest : List Effect)
    → IsAlone w es
    → IsAlone none rest
    → IsAlone w (es ++ rest)
unfolding IsAlone
IsAlone-append w [] rest alone more = subst (λ v. IsAlone v rest) (sym alone) more
IsAlone-append w (e ∷ es) rest (knows, alone) more =
    (knows, IsAlone-append (window_after e w) es rest alone more)

-- Followers of a container one after the other: each with its start and its rounds.
unfoldable pub follow_runs : Member → List (ℕ × List Round) → List Effect
follow_runs x [] = []
follow_runs x ((at, rounds) ∷ runs) = follow x at rounds ++ follow_runs x runs

follow-IsAlone :
    (x : Member) (at : ℕ) (rounds : List Round) (w : Option Unread) → IsAlone w (follow x at rounds)
unfolding follow IsAlone Knows
follow-IsAlone x at rounds w = (tt, follow_from-IsAlone x reconnect_min rounds _)

follow_runs-IsAlone :
    (x : Member) (runs : List (ℕ × List Round)) → IsAlone none (follow_runs x runs)
unfolding follow_runs IsAlone
follow_runs-IsAlone x [] = refl
follow_runs-IsAlone x ((at, rounds) ∷ runs) =
    IsAlone-append none (follow x at rounds) (follow_runs x runs) (follow-IsAlone x at rounds none)
      (follow_runs-IsAlone x runs)

module _ (decode : Bytes → Option Members) (x : Member) where
  tell-window :
      (e : Effect) (m : Matcher) (b : Bool)
      → (member_of e == x) ≡ b
      → lookup x (tell decode e m).unread
        ≡ (if b then window_after e (lookup x m.unread) else lookup x m.unread)
  tell-window e m b same = rw (sym same) (lookup-tell decode x e m)

  IsCovered-step :
      (e : Effect) (es : List Effect) (m : Matcher) (b : Bool)
      → (member_of e == x) ≡ b
      → ((n : Matcher) → IsAlone (lookup x n.unread) (effects_of x es) → IsCovered decode x n es)
      → IsAlone (lookup x m.unread) (if b then e ∷ effects_of x es else effects_of x es)
      → IsCovered decode x m (e ∷ es)
  unfolding IsCovered IsAlone
  IsCovered-step e es m true same covered (knows, alone) =
      (λ _. knows, covered (tell decode e m) (rw (tell-window e m true same) alone))
  IsCovered-step e es m false same covered alone = (
    (λ about. ground (arith, same, about, ==_iff (member_of e) x)),
    covered (tell decode e m) (rw (tell-window e m false same) alone),
  )

  alone-IsCovered :
      (es : List Effect) (m : Matcher)
      → IsAlone (lookup x m.unread) (effects_of x es)
      → IsCovered decode x m es
  unfolding IsCovered effects_of IsAlone
  alone-IsCovered [] m alone = alone
  alone-IsCovered (e ∷ es) m alone =
      IsCovered-step e es m (member_of e == x) refl (alone-IsCovered es) alone

  -- Where the followers of a container run one after the other, each started once the one before has
  -- dropped its coverage, and whatever the followers of other containers do in between: the matcher
  -- counts the container as unread at every wait of its followers and as read at every line, and it
  -- holds no window for it once the last of them is done.
  pub follow-IsCovered :
      (at : ℕ) (rounds : List Round) (runs : List (ℕ × List Round)) (es : List Effect) (m : Matcher)
      → effects_of x es ≡ follow_runs x ((at, rounds) ∷ runs)
      → IsCovered decode x m es
  unfolding follow_runs
  follow-IsCovered at rounds runs es m trace = alone-IsCovered es m (
      rw trace (
        IsAlone-append (lookup x m.unread) (follow x at rounds) (follow_runs x runs)
          (follow-IsAlone x at rounds (lookup x m.unread)) (follow_runs-IsAlone x runs)))
