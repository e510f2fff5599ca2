-- ===== src/Realtime/Commit.antt =====
-- internal/core/realtime/commit.go: the committer, which turns the partials of a transcription into
-- irrevocable clauses. An index or slice out of range is a panic, which is `none`.
pub mod Cut
pub mod Frontier
pub mod Stream
mod Tests
use prukka.Base.{
  ℕ, zero, suc, ◌+◌, ◌-◌, ◌≤◌, ◌<◌, ◌≡◌, refl, min, max, Bool, true, false, ◌&&◌, ◌||◌, Option,
  none, some, List, [], ◌∷◌, ◌++◌, arith, ltb, leb, ◌==◌, if◌then◌else◌, length, get_elem?, take,
  drop, Text, join,
}
use prukka.Base.Unicode.{Unicode}
use prukka.Realtime.Words.{fields, lcp, is_clause_end}

pub record CommitPolicy : Type 0 where
  pub hold_tail : ℕ
  pub min_clause : ℕ
  pub max_clause : ℕ

abbrev pub broadcast_commit_policy : CommitPolicy
broadcast_commit_policy = record { hold_tail = 2; min_clause = 3; max_clause = 8 }

abbrev pub call_commit_policy : CommitPolicy
call_commit_policy = record { hold_tail = 1; min_clause = 2; max_clause = 8 }

-- The fields of a transcript that the committer reads.
pub record Transcript : Type 0 where
  pub text : Text
  pub stable : Bool
  pub final : Bool

pub record Committer : Type 0 where
  pub prev : List Text
  pub last : List Text
  pub agreed : ℕ
  pub emitted : ℕ
  pub policy : CommitPolicy

unfoldable pub new_committer : Bool → Committer
new_committer fast_turn = record {
  prev = [];
  last = [];
  agreed = 0;
  emitted = 0;
  policy = if fast_turn then call_commit_policy else broadcast_commit_policy;
}

-- `cut` slices only between its frontier and a word that it has read, where this is all of the slice.
abbrev pub slice {ℓ} : {A : Type ℓ} → ℕ → ℕ → List A → List A
slice a b xs = take (b - a) (drop a xs)

-- A slice expression, with its panic.
abbrev pub slice_at {ℓ} : {A : Type ℓ} → ℕ → ℕ → List A → Option (List A)
slice_at a b xs = if leb a b && leb b (length xs) then some (slice a b xs) else none

-- The bounds are signed in the source; a negative `v` and 0 are clamped alike, since 0 ≤ lo.
unfoldable pub clamp : ℕ → ℕ → ℕ → ℕ
clamp v lo hi = max lo (min v hi)

unfoldable pub reset : Committer → Committer
reset c = record c { prev = []; last = []; agreed = 0; emitted = 0 }

-- Whether the word at `i` ends the clause that starts at `start`.
unfoldable pub closes : CommitPolicy → ℕ → ℕ → Text → Bool
unfolding is_clause_end
closes p start i word =
    let n = i - start + 1 in is_clause_end word && leb p.min_clause n || leb p.max_clause n

-- The loop of `cut`, with the rounds that are left: the clauses, and the start of the next one.
unfoldable pub cut_loop : CommitPolicy → List Text → ℕ → ℕ → ℕ → List Text → Option (List Text × ℕ)
unfolding closes
cut_loop p last zero i start clauses = some (clauses, start)
cut_loop p last (suc rounds) i start clauses = elim (get_elem? last i) [
  | none ↦ none
  | some word ↦
      let ends = closes p start i word in
      cut_loop p last rounds (suc i) (if ends then suc i else start)
        (if ends then clauses ++ join (slice start (suc i) last) ∷ [] else clauses)
]

-- The end of `cut`: the remainder of a forced cut, and the new frontier.
unfoldable pub cut_rest : Committer → ℕ → Bool → List Text × ℕ → List Text × Committer
cut_rest c end force (clauses, start) =
    if force && ltb start end
    then (clauses ++ join (slice start end c.last) ∷ [], record c { emitted = end })
    else (clauses, record c { emitted = start })

unfoldable pub cut : ℕ → Bool → Committer → Option (List Text × Committer)
unfolding cut_loop cut_rest
cut end force c = elim (cut_loop c.policy c.last (end - c.emitted) c.emitted c.emitted []) [
  | none ↦ none
  | some r ↦ some (cut_rest c end force r)
]

abbrev pub anchor_window : ℕ
anchor_window = 2

unfoldable pub stable_end : Bool → Committer → ℕ
unfolding clamp
stable_end stable c =
    if stable
    then length c.last
    else clamp (c.agreed - c.policy.hold_tail) c.emitted (length c.last)

module _ (u : Unicode) where
  -- The loop of `anchor`, downwards, with the rounds that are left: `j` is `kept + rounds - 1`.
  unfoldable pub search : List Text → List Text → ℕ → ℕ → ℕ
  unfolding lcp
  search pending words kept zero = length words
  search pending words kept (suc rounds) =
      let rest = search pending words kept rounds in
      let j = kept + rounds in if lcp u pending (drop j words) == length pending then j else rest

  -- `anchor` from the pending words on; they are none where their slice is out of range.
  unfoldable pub anchor_in : List Text → ℕ → Option (List Text) → Option ℕ
  unfolding search
  anchor_in words kept none = none
  anchor_in words kept (some pending) =
      if length pending == 0
      then some (length words)
      else some (search pending words kept (length words + 1 - (length pending + kept)))

  unfoldable pub anchor : List Text → Committer → Option ℕ
  unfolding lcp anchor_in
  anchor words c =
      let kept = lcp u c.last words in
      let pending = slice_at c.emitted (min (c.emitted + anchor_window) (length c.last)) c.last in
      if c.emitted == 0
      then some 0
      else if leb c.emitted kept
      then some c.emitted
      else anchor_in words kept pending

  abbrev pub observed : List Text → Bool → Committer → ℕ → Committer
  observed words stable c at = record c {
    agreed = if stable then length words else lcp u c.prev words;
    emitted = at;
    prev = words;
    last = words;
  }

  unfoldable pub observe : List Text → Bool → Committer → Option Committer
  unfolding lcp anchor
  observe words stable c = elim (anchor words c) [
    | none ↦ none
    | some at ↦ some (observed words stable c at)
  ]

  -- `commit` past its call of `observe`.
  unfoldable pub commit_seen : Transcript → Option Committer → Option (List Text × Committer)
  unfolding cut stable_end reset
  commit_seen t none = none
  commit_seen t (some seen) = elim (cut (stable_end (t.stable || t.final) seen) t.final seen) [
    | none ↦ none
    | some (clauses, after) ↦ some (clauses, if t.final then reset after else after)
  ]

  unfoldable pub commit : Transcript → Committer → Option (List Text × Committer)
  unfolding observe commit_seen fields
  commit t c = commit_seen t (observe (fields u t.text) (t.stable || t.final) c)

unfoldable pub flush_hold : Committer → Option (List Text × Committer)
unfolding cut
flush_hold c = cut (min c.agreed (length c.last)) true c
