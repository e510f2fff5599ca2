-- ===== src/Realtime/Lane/Runs.antt =====
-- internal/core/realtime/lane.go: how a whole run of `consume` ends.
use prukka.Base.{
  ℕ, ◌<◌, ◌≡◌, ◌≢◌, refl, sym, subst, min, Bool, true, false, some, List, [], ◌∷◌, ltb, Bool-cases,
  Option-cases, inl, inr, arith, Text, All, length, ◌&&◌, not, text_eq, is_empty,
}
use prukka.Base.Int.{ℤ, pos, negsuc}
use prukka.Base.Unicode.{Unicode}
use prukka.Base.Result.{Result, ok, err, Result-cases}
use prukka.Lang.{lang_auto, same_lang}
use prukka.Realtime.Commit.{Committer, new_committer}
use prukka.Realtime.Commit.Cut.{cut-Cuts}
use prukka.Realtime.Commit.Frontier.{commit-Commits}
use prukka.Realtime.Lane.{
  LaneError, panicked, moved_backward, Update, Cursor, speaks, advance, advance_to, Worker,
  LaneState, emit, validate_translation_targets, validated, emit_validated, deliver, committed,
  consume_one, consume_all, finish_consume, consume, lane_start, opened,
}
use prukka.Realtime.Lane.Spans.{emit-Emits}
use prukka.Realtime.Lane.Order.{
  InOrder, Abuts-InOrder, IsClocked, Advances, Inv, fanout-InOrder, advance-Advances, err-ok, after,
  after-Inv,
}

-- A run that either reaches a state that `P` holds of, or stops by an error that is no panic.
abbrev pub Settles : (LaneState → Type 0) → Result LaneError LaneState → Type 0
Settles P (ok s) = P s
Settles P (err e) = e ≢ panicked

err-inj : {E A : Type 0} {a b : E} {r : Result E A} → r ≡ err a → r ≡ err b → b ≡ a
err-inj h k = cc (h, k)

advance_to-refuses :
    (c : Cursor) (z : ℤ) (e : LaneError) → advance_to c z ≡ err e → e ≡ moved_backward
unfolding advance_to
advance_to-refuses c (negsuc n) e h = err-inj {r = advance_to c (negsuc n)} refl h
advance_to-refuses c (pos n) e h = elim (Bool-cases (c.has_source_end && ltb n c.last_source_end)) [
  | inl b ↦ err-inj {r = advance_to c (pos n)} (rw (b, advance_to) refl) h
  | inr b ↦ absurd (err-ok (sym (rw (b, advance_to) at h)))
]

advance-refuses :
    (c : Cursor) (up : Update) (clock : ℕ) (e : LaneError)
    → advance c up clock ≡ err e
    → e ≡ moved_backward
unfolding advance
advance-refuses c up clock e h = elim (Bool-cases up.has_source_end) [
  | inl b ↦ advance_to-refuses (speaks c up.lang) up.source_end e (rw b at h)
  | inr b ↦ absurd (err-ok (sym (rw b at h)))
]

-- The workers' segments lie in order from the source's start to where the next one would start.
abbrev pub Ordered : LaneState → Type 0
Ordered s = All (λ (w : Worker). InOrder 0 s.cursor.seg_start w.inbox) s.workers

module _ (u : Unicode) (supports : Text → Text → Bool) where
  targets_calm :
      (lang : Text) (targets : List Text)
      → validate_translation_targets u supports lang targets ≢ some panicked
  unfolding validate_translation_targets
  targets_calm lang [] = λ h. cc
  targets_calm lang (t ∷ ts) =
      let rest = targets_calm lang ts in
      elim (Bool-cases (not (text_eq lang lang_auto) && same_lang u lang t)) [
        | inl e ↦ rw e rest
        | inr e ↦ elim (Bool-cases (text_eq lang lang_auto)) [
          | inl f ↦ rw (e, f) (λ h. cc)
          | inr f ↦ elim (Bool-cases (supports lang t)) [
            | inl g ↦ rw (e, f, g) rest
            | inr g ↦ rw (e, f, g) (λ h. cc)
          ]
        ]
      ]

  validated_calm :
      (clauses : List Text) (lang : Text) (targets : List Text)
      → validated u supports clauses lang targets ≢ some panicked
  unfolding validated
  validated_calm clauses lang targets = elim (Bool-cases (is_empty clauses)) [
    | inl e ↦ rw e (λ h. cc)
    | inr e ↦ rw e (targets_calm lang targets)
  ]

  deliver-Settles :
      (P : LaneState → Type 0) (targets : List Text) (final : Bool) (now : ℕ) (c : Cursor)
      (ws : List Worker) (clauses : List Text) (k : Committer)
      → P (after u supports targets final now c ws (clauses, k))
      → Settles P (deliver u supports targets final now c ws (clauses, k))
  unfolding deliver emit_validated
  deliver-Settles P targets final now c ws clauses k p =
      elim (Option-cases (validated u supports clauses c.lang targets)) [
        | inl v ↦ rw (v, deliver, emit_validated) p
        | inr (x, v) ↦
            rw (v, deliver, emit_validated)
              (λ e. validated_calm clauses c.lang targets (rw (← e) v))
      ]

  committed-Settles :
      (targets : List Text) (up : Update) (s : LaneState) (now : ℕ) (c : Cursor)
      → Inv s
      → Advances s.cursor now c
      → Settles Inv (committed u supports targets up s (now, c))
  unfolding committed
  committed-Settles targets up s now c i a =
      let (end, cs, k, e, commits, anchored) =
        commit-Commits u up.transcript s.committer i.anchored i.bounded in
      rw (e, committed)
        (deliver-Settles Inv targets up.transcript.final now c s.workers cs k (
          after-Inv u supports targets up.transcript.final now c s.workers cs k
            (subst (λ b. All (λ (w : Worker). InOrder 0 b w.inbox) s.workers) (sym a.start)
              i.placed)
            (omega (arith, a.start, i.behind, a.forward))
            (subst (λ p. 0 < p.max_clause) (sym commits.policy) i.bounded) anchored a.latest
            a.known))

  consume_one-Settles :
      (targets : List Text) (up : Update) (clock : ℕ) (s : LaneState)
      → up.has_source_end ≡ true
      → Inv s
      → Settles Inv (consume_one u supports targets up clock s)
  unfolding consume_one
  consume_one-Settles targets up clock s h i = elim (Result-cases (advance s.cursor up clock)) [
    | inl ((now, c), e) ↦
        rw (e, consume_one)
          (committed-Settles targets up s now c i
            (advance-Advances s.cursor up clock now c h i.unset e))
    | inr (x, e) ↦ rw (e, consume_one) (λ p. cc (p, advance-refuses s.cursor up clock x e))
  ]

  settled :
      (P : LaneState → Type 0) {r : Result LaneError LaneState} {s : LaneState}
      → r ≡ ok s
      → Settles P r
      → P s
  settled P e h = subst (Settles P) e h

  refused :
      (P : LaneState → Type 0) {r : Result LaneError LaneState} {x : LaneError}
      → r ≡ err x
      → Settles P r
      → x ≢ panicked
  refused P e h = subst (Settles P) e h

  consume_all-Settles :
      (targets : List Text) (ups : List (Update × ℕ)) (s : LaneState)
      → All IsClocked ups
      → Inv s
      → Settles Inv (consume_all u supports targets ups s)
  unfolding consume_all
  consume_all-Settles targets [] s h i = i
  consume_all-Settles targets ((up, clock) ∷ ups) s h i =
      let one = consume_one-Settles targets up clock s h.0 i in
      elim (Result-cases (consume_one u supports targets up clock s)) [
        | inl (s', e) ↦
            rw (e, consume_all) (consume_all-Settles targets ups s' h.1 (settled Inv e one))
        | inr (x, e) ↦ rw (e, consume_all) (refused Inv e one)
      ]

  finish_consume-Settles :
      (targets : List Text) (failed : Bool) (clock : ℕ) (s : LaneState)
      → Inv s
      → Settles Ordered (finish_consume u supports targets failed clock s)
  unfolding finish_consume
  finish_consume-Settles targets failed clock s i = elim (Bool-cases failed) [
    | inl f ↦ rw f (λ p. cc)
    | inr f ↦
        let end = min s.committer.agreed (length s.committer.last) in
        let (cs, k, e, _) = cut-Cuts end true s.committer i.anchored (omega arith) i.bounded in
        let c = s.cursor in
        let out = emit c.lang c.seg_start clock cs in
        let sent =
          Abuts-InOrder c.seg_start out.1 out.0 (emit-Emits c.lang c.seg_start clock cs).abuts in
        rw (f, e)
          (deliver-Settles Ordered targets false clock c s.workers cs k
            (fanout-InOrder c.seg_start out.1 s.workers out.0 i.placed sent))
  ]

  opened-Inv : (targets : List Text) → All (λ (w : Worker). InOrder 0 0 w.inbox) (opened targets)
  opened-Inv [] = tt
  opened-Inv (t ∷ ts) = (omega arith, opened-Inv ts)

  lane_start-Inv :
      (source : Text) (fast_turn : Bool) (targets : List Text)
      → Inv (lane_start source fast_turn targets)
  unfolding lane_start new_committer
  lane_start-Inv source fast_turn targets = record {
    bounded = ground arith;
    anchored = omega arith;
    placed = opened-Inv targets;
    behind = omega arith;
    unset = λ f. refl;
  }

  -- A lane whose transcripts carry source times never reads or slices out of range. Where it ends without an
  -- error, every target has been sent segments in the order of the source clock: each one starts no
  -- earlier than the one before it ended, and none runs backward.
  pub consume-Ordered :
      (source : Text) (fast_turn : Bool) (targets : List Text) (ups : List (Update × ℕ))
      (failed : Bool) (clock : ℕ)
      → All IsClocked ups
      → Settles Ordered
          (consume u supports targets ups failed clock (lane_start source fast_turn targets))
  unfolding consume
  consume-Ordered source fast_turn targets ups failed clock h =
      let s = lane_start source fast_turn targets in
      let all = consume_all-Settles targets ups s h (lane_start-Inv source fast_turn targets) in
      elim (Result-cases (consume_all u supports targets ups s)) [
        | inl (s', e) ↦
            rw (e, consume) (finish_consume-Settles targets failed clock s' (settled Inv e all))
        | inr (x, e) ↦ rw (e, consume) (refused Inv e all)
      ]
