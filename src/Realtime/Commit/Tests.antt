-- ===== src/Realtime/Commit/Tests.antt =====
-- Runs of the committer of internal/core/realtime/commit.go, and its theorems at concrete transcripts.
use prukka.Base.{
  ℕ, ◌≡◌, refl, true, false, none, some, List, [], ◌∷◌, ◌++◌, arith, Text, codes, spoken,
}
use prukka.Base.Unicode.{ascii}
use prukka.Realtime.Words.{fields, is_clause_end}
use prukka.Realtime.Commit.{
  Committer, Transcript, call_commit_policy, new_committer, cut, anchor, commit,
}
use prukka.Realtime.Commit.Cut.{IsAnchored, Cuts, cut-Cuts}
use prukka.Realtime.Commit.Frontier.{Commits, commit-Commits}
use prukka.Realtime.Commit.Stream.{feed, segment-spoken}

abbrev partial : Text → Transcript
partial t = record { text = t; stable = false; final = false }

abbrev final : Text → Transcript
final t = record { text = t; stable = false; final = true }

abbrev greeting : List Transcript
greeting = partial (codes "Good evening") ∷ partial (codes "Good evening, everyone and") ∷ []

-- Partials that agree commit nothing of the held tail; the final cuts at its punctuation, and flushes.
greeting_run :
    feed ascii
      (greeting ++ final (codes "Good evening, everyone and welcome.") ∷ [])
      (new_committer true)
    ≡ some (codes "Good evening," ∷ codes "everyone and welcome." ∷ [], new_committer true)
unfolding feed new_committer
greeting_run = refl

-- A clause leaves as soon as it is agreed on and its punctuation is past the minimum.
early_clause :
    feed ascii
      (partial (codes "Hi there. How are") ∷ partial (codes "Hi there. How are you") ∷ [])
      (new_committer true)
    ≡ some (
      codes "Hi there." ∷ [],
      record {
        prev = codes "Hi" ∷ codes "there." ∷ codes "How" ∷ codes "are" ∷ codes "you" ∷ [];
        last = codes "Hi" ∷ codes "there." ∷ codes "How" ∷ codes "are" ∷ codes "you" ∷ [];
        agreed = 4;
        emitted = 2;
        policy = call_commit_policy;
      },
    )
unfolding feed new_committer
early_clause = refl

quoted_end : is_clause_end (codes "done.”") ≡ true
unfolding is_clause_end
quoted_end = refl

segment-spoken_example :
    (cs : List Text) × (c : Committer) × (feed ascii
        ((partial (codes "Good evening") ∷ []) ++ final (codes "Good evening everyone") ∷ [])
        (new_committer true)
      ≡ some (cs, c))
    × (spoken cs ≡ spoken (fields ascii (codes "Good evening everyone")))
    × (c.last ≡ [])
    × (c.emitted ≡ 0)
    × (c.policy ≡ call_commit_policy)
unfolding fields new_committer
segment-spoken_example =
    segment-spoken ascii (partial (codes "Good evening") ∷ [])
      (final (codes "Good evening everyone")) (new_committer true) (codes "everyone" ∷ []) refl refl
      (omega arith) (codes "Good" ∷ codes "evening" ∷ [], refl, refl, tt) refl refl

abbrev words : List Text
words = codes "i" ∷ codes "am" ∷ codes "gonna" ∷ codes "leave" ∷ codes "now" ∷ []

-- Three words are spoken, two are pending.
abbrev revised : Committer
revised = record {
  prev = words;
  last = words;
  agreed = 5;
  emitted = 3;
  policy = call_commit_policy;
}

abbrev decode : List Text
decode = codes "I" ∷ codes "am" ∷ codes "going" ∷ codes "to" ∷ codes "leave" ∷ codes "now" ∷ []

anchor_moves : anchor ascii decode revised ≡ some 4
unfolding anchor
anchor_moves = refl

-- A frontier past the last decode is a panic.
anchor_panics : anchor ascii decode (record revised { emitted = 6 }) ≡ none
unfolding anchor
anchor_panics = refl

cut-Cuts_example :
    (cs : List Text) × (c : Committer) × (cut 5 true revised ≡ some (cs, c))
    × Cuts 5 true revised cs c
cut-Cuts_example = cut-Cuts 5 true revised (omega arith) (omega arith) (omega arith)

commit-Commits_example :
    (end : ℕ) × (cs : List Text) × (c : Committer) × (commit ascii
        (final (codes "I am going to leave now"))
        revised
      ≡ some (cs, c))
    × Commits ascii (final (codes "I am going to leave now")) revised end cs c
    × IsAnchored c
commit-Commits_example =
    commit-Commits ascii (final (codes "I am going to leave now")) revised (omega arith)
      (omega arith)
