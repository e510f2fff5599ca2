-- ===== src/Realtime/Commit/Frontier.antt =====
-- The emitted frontier across partials: where `anchor` finds it again, and what one `commit` speaks.
use prukka.Base.{
  ℕ, zero, suc, ◌+◌, ◌-◌, ◌≤◌, ◌<◌, ◌≡◌, ◌≢◌, refl, ap, min, max, Bool, true, false, ◌&&◌, leb,
  ◌||◌, some, List, [], ◌⊎◌, inl, inr, arith, ◌==◌, if◌then◌else◌, length, drop, Text, spoken,
  Bool-cases, if-split, length-take, length-drop,
}
use native.Mathlib.Decide.{dec_le}
use prukka.Base.Unicode.{Unicode}
use prukka.Realtime.Words.{fields, lcp, lcp-le-right}
use prukka.Realtime.Commit.{
  Committer, Transcript, slice, slice_at, observed, anchor_in, commit_seen, clamp, reset,
  stable_end, anchor_window, search, anchor, observe, commit,
}
use prukka.Realtime.Commit.Cut.{IsAnchored, cut-Cuts}

module _ (u : Unicode) where
  -- The words that `anchor` looks for: the first ones that are not yet spoken.
  abbrev pub pending_words : Committer → List Text
  pending_words c = slice c.emitted (min (c.emitted + anchor_window) (length c.last)) c.last

  -- `search` yields the end of the words, or a place where the pending words stand.
  search-found :
      (pending words : List Text) (kept rounds : ℕ)
      → rounds + kept + length pending ≤ length words + 1
      → let j = search u pending words kept rounds in
        (j ≡ length words)
        ⊎ ((kept ≤ j)
            × (j + length pending ≤ length words)
            × (lcp u pending (drop j words) ≡ length pending))
  unfolding search
  search-found pending words kept zero h = inl refl
  search-found pending words kept (suc r) h =
      elim (Bool-cases (lcp u pending (drop (kept + r) words) == length pending)) [
        | inl e ↦ rw e (inr (omega arith, omega arith, ground arith))
        | inr e ↦ rw e (search-found pending words kept r (omega arith))
      ]

  -- No place above the one found holds the pending words.
  search-latest :
      (pending words : List Text) (kept rounds j : ℕ)
      → kept ≤ j
      → j < kept + rounds
      → lcp u pending (drop j words) ≡ length pending
      → (j ≤ search u pending words kept rounds)
        × (search u pending words kept rounds < kept + rounds)
  unfolding search
  search-latest pending words kept zero j a b m = absurd (omega arith)
  search-latest pending words kept (suc r) j a b m =
      elim (Bool-cases (lcp u pending (drop (kept + r) words) == length pending)) [
        | inl e ↦ rw e (omega arith, omega arith)
        | inr e ↦
            let differs : j ≢ kept + r = λ same. cc (e, ==-refl same) in
            let (x, y) = search-latest pending words kept r j a (omega arith) m in
            rw e (x, omega arith)
      ]
    where
      ==-refl : j ≡ kept + r → (lcp u pending (drop (kept + r) words) == length pending) ≡ true
      ==-refl same = rw (← same, m) (ground arith)

  -- The frontier that a new decode keeps: as far as the decodes agree over all that was spoken.
  pub anchor-kept :
      (words : List Text) (c : Committer)
      → c.emitted ≤ lcp u c.last words
      → anchor u words c ≡ some c.emitted
  unfolding anchor
  anchor-kept words c h = elim (Bool-cases (c.emitted == 0)) [
    | inl e ↦ rw e (ap some (ground arith))
    | inr e ↦
        let whole : leb c.emitted (lcp u c.last words) ≡ true = ground arith in rw (e, whole) refl
  ]

  -- A frontier within the last decode keeps the slice of the pending words in range.
  slice_at-pending :
      (c : Committer)
      → IsAnchored c
      → slice_at c.emitted (min (c.emitted + anchor_window) (length c.last)) c.last
        ≡ some (pending_words c)
  slice_at-pending c a =
      let fits : (leb c.emitted (min (c.emitted + anchor_window) (length c.last))
            && leb (min (c.emitted + anchor_window) (length c.last)) (length c.last))
          ≡ true =
        ground arith in
      rw fits refl

  -- Then a frontier is found in the new decode, whatever it is.
  pub anchor-some :
      (words : List Text) (c : Committer)
      → IsAnchored c
      → (at : ℕ) × (anchor u words c ≡ some at) × (at ≤ length words)
  unfolding anchor anchor_in
  anchor-some words c a =
      let kept = lcp u c.last words in
      let p = pending_words c in
      let found = search-found p words kept (length words + 1 - (length p + kept)) in
      elim (Bool-cases (c.emitted == 0)) [
        | inl e ↦ (0, rw e refl, omega arith)
        | inr e ↦ elim (Bool-cases (leb c.emitted kept)) [
          | inl f ↦ (c.emitted, rw (e, f) refl, ground (arith, lcp-le-right u c.last words))
          | inr f ↦ elim (Bool-cases (length p == 0)) [
            | inl g ↦ (length words, rw (e, f, slice_at-pending c a, g) refl, omega arith)
            | inr g ↦ (
              search u p words kept (length words + 1 - (length p + kept)),
              rw (e, f, slice_at-pending c a, g) refl,
              ground (arith, found, lcp-le-right u c.last words),
            )
          ]
        ]
      ]

  rounds-sum :
      (len p kept j : ℕ)
      → kept ≤ j
      → j + p ≤ len
      → (j < kept + (len + 1 - (p + kept)))
        × ((len + 1 - (p + kept)) + kept + p ≤ len + 1)
        × (kept + (len + 1 - (p + kept)) + p ≤ len + 1)
  rounds-sum len p kept j a b = (omega arith, omega arith, omega arith)

  anchor-search :
      (words : List Text) (c : Committer)
      → lcp u c.last words < c.emitted
      → c.emitted < length c.last
      → anchor u words c
        ≡ some (
            search u
              (pending_words c)
              words
              (lcp u c.last words)
              (length words + 1 - (length (pending_words c) + lcp u c.last words)))
  unfolding anchor anchor_in
  anchor-search words c a b =
      let pos : 0 < length (pending_words c) = omega (
        arith,
        length-take (min (c.emitted + anchor_window) (length c.last) - c.emitted)
            (drop c.emitted c.last),
        length-drop c.emitted c.last,
      ) in
      let moved : (c.emitted == 0) ≡ false = ground arith in
      let revised : leb c.emitted (lcp u c.last words) ≡ false = ground arith in
      let some_pending : (length (pending_words c) == 0) ≡ false = ground arith in
      rw (moved, revised, slice_at-pending c (omega arith), some_pending) refl

  -- A decode that revises spoken words, while words are pending: the frontier goes to a place, not
  -- before the words still agreed on, where the pending words stand again, or past the whole decode.
  pub anchor-relocates :
      (words : List Text) (c : Committer)
      → lcp u c.last words < c.emitted
      → c.emitted < length c.last
      → (j : ℕ) × (anchor u words c ≡ some j)
        × ((j ≡ length words)
            ⊎ ((lcp u c.last words ≤ j)
                × (j + length (pending_words c) ≤ length words)
                × (lcp u (pending_words c) (drop j words) ≡ length (pending_words c))))
  unfolding search
  anchor-relocates words c a b =
      let kept = lcp u c.last words in
      let n = length (pending_words c) in
      (
        search u (pending_words c) words kept (length words + 1 - (n + kept)),
        anchor-search words c a b,
        elim (dec_le (n + kept) (length words)) [
          | yes h ↦
              search-found (pending_words c) words kept (length words + 1 - (n + kept))
                (omega arith)
          | no h ↦
              let z : length words + 1 - (n + kept) ≡ 0 = omega arith in rw (z, search) (inl refl)
        ],
      )

  -- Where the pending words stand at several places the frontier goes to the last of them, so that
  -- nothing that may have been spoken is spoken again.
  pub anchor-latest :
      (words : List Text) (c : Committer) (j : ℕ)
      → lcp u c.last words < c.emitted
      → c.emitted < length c.last
      → lcp u c.last words ≤ j
      → j + length (pending_words c) ≤ length words
      → lcp u (pending_words c) (drop j words) ≡ length (pending_words c)
      → (at : ℕ) × (anchor u words c ≡ some at)
        × (j ≤ at)
        × (at + length (pending_words c) ≤ length words)
  anchor-latest words c j a b above fits m =
      let (r, x, y) =
        rounds-sum (length words) (length (pending_words c)) (lcp u c.last words) j above fits in
      let (p, q) =
        search-latest (pending_words c) words (lcp u c.last words)
          (length words + 1 - (length (pending_words c) + lcp u c.last words)) j above r m in
      (_, anchor-search words c a b, p, omega arith)

stable_end-le :
    (stable : Bool) (c : Committer)
    → IsAnchored c
    → (stable_end stable c ≤ length c.last) × (c.emitted ≤ stable_end stable c)
unfolding stable_end clamp
stable_end-le stable c a = ground arith

-- One `commit`: the words of the decode, the frontier `start` found in them, and the frontier `end`
-- reached. Unless the decode is settled, `end` passes `start` only over words that two decodes in a row
-- agree on, less the tail held back; a final decode is spoken to its end and the segment is reset.
pub record Commits (u : Unicode) (t : Transcript) (c : Committer) (end : ℕ) (cs : List Text)
    (c' : Committer) : Type 0 where
  pub start : ℕ
  pub found : anchor u (fields u t.text) c ≡ some start
  pub forward : start ≤ end
  pub within : end ≤ length (fields u t.text)
  pub text : spoken cs ≡ spoken (slice start end (fields u t.text))
  pub held : end ≤ (
      if t.stable || t.final
      then length (fields u t.text)
      else max start (lcp u c.prev (fields u t.text) - c.policy.hold_tail))
  pub flushed : (if t.final then length (fields u t.text) else 0) ≤ end
  pub frontier : c'.emitted ≡ (if t.final then 0 else end)
  pub latest : c'.last ≡ (if t.final then [] else fields u t.text)
  pub policy : c'.policy ≡ c.policy

module _ (u : Unicode) (t : Transcript) (c : Committer) where
  seen : ℕ → Committer
  seen at = observed u (fields u t.text) (t.stable || t.final) c at

  settled_end : ℕ → ℕ
  unfolding seen
  settled_end at = stable_end (t.stable || t.final) (seen at)

  settled_end-held :
      (at : ℕ)
      → settled_end at ≤ (
          if t.stable || t.final
          then length (fields u t.text)
          else max at (lcp u c.prev (fields u t.text) - c.policy.hold_tail))
  unfolding settled_end stable_end clamp
  settled_end-held at = ground arith

  settled_end-final : (at : ℕ) → (if t.final then length (fields u t.text) else 0) ≤ settled_end at
  unfolding settled_end stable_end clamp
  settled_end-final at = ground arith

  observe-seen :
      (at : ℕ)
      → anchor u (fields u t.text) c ≡ some at
      → observe u (fields u t.text) (t.stable || t.final) c ≡ some (seen at)
  unfolding observe seen
  observe-seen at e = rw (e, observe) refl

  -- From a committer whose frontier lies within its last decode a commit never reads or slices out of
  -- range, and speaks the decode from the frontier found in it, each word once and in order; the
  -- frontier lies within it again.
  pub commit-Commits :
      IsAnchored c
      → 0 < c.policy.max_clause
      → (end : ℕ) × (cs : List Text) × (c' : Committer) × (commit u t c ≡ some (cs, c'))
        × Commits u t c end cs c'
        × IsAnchored c'
  unfolding commit commit_seen seen settled_end
  commit-Commits a m =
      let (at, found, at-le) = anchor-some u (fields u t.text) c a in
      let (e-le, e-ge) = stable_end-le (t.stable || t.final) (seen at) at-le in
      let (cs, after, q, k) = cut-Cuts (settled_end at) t.final (seen at) at-le e-le m in
      (
        after.emitted,
        cs,
        if t.final then reset after else after,
        rw (observe-seen at found, commit_seen, q) refl,
        record {
          start = at;
          found = found;
          forward = k.forward;
          within = omega (arith, k.within);
          text = k.text;
          held = omega (arith, k.within, e-ge, settled_end-held at);
          flushed = ground (arith, k.flushed, settled_end-final at, e-ge);
          frontier = ground (arith);
          latest = ground (arith, k.same.0);
          policy = ground (arith, k.same.3);
        },
        if-split IsAnchored t.final (reset after) after (λ _. unfold reset in omega arith)
            (λ _. omega (arith, k.within, ap length k.same.0)),
      )
