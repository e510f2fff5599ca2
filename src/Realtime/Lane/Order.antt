-- ===== src/Realtime/Lane/Order.antt =====
-- internal/core/realtime/lane.go: what the workers have been sent over a whole run of `consume`.
use prukka.Base.{
  ℕ, ◌≤◌, ◌<◌, ◌≡◌, refl, sym, ap, ◌∙◌, Bool, true, false, List, [], ◌∷◌, ◌++◌, if◌then◌else◌, ltb,
  Bool-cases, Option-cases, inl, inr, arith, Text, All, ◌&&◌, is_empty,
}
use prukka.Base.Int.{ℤ, pos, negsuc}
use prukka.Base.Unicode.{Unicode}
use prukka.Base.Result.{ok, err, ok-inj}
use prukka.Pivot.{Segment}
use prukka.Realtime.Commit.{Committer}
use prukka.Realtime.Commit.Cut.{IsAnchored}
use prukka.Realtime.Lane.{
  Update, Cursor, speaks, advance, advance_to, Worker, LaneState, emit, fanout, validated,
  emit_validated, deliver,
}
use prukka.Realtime.Lane.Spans.{Abuts, emit-Emits}

-- The segments lie in order between two instants, and none of them runs backward.
abbrev pub InOrder : ℕ → ℕ → List Segment → Type 0
InOrder a b [] = a ≤ b
InOrder a b (s ∷ ss) = (a ≤ s.span.0) × (s.span.0 ≤ s.span.1) × InOrder s.span.1 b ss

pub Abuts-InOrder : (a b : ℕ) (ss : List Segment) → Abuts a b ss → InOrder a b ss
Abuts-InOrder a b [] h = omega arith
Abuts-InOrder a b (s ∷ ss) h = (omega arith, omega arith, Abuts-InOrder s.span.1 b ss h.2)

InOrder-weaken : (a b c : ℕ) (ss : List Segment) → InOrder a b ss → b ≤ c → InOrder a c ss
InOrder-weaken a b c [] h l = omega arith
InOrder-weaken a b c (s ∷ ss) h l = (h.0, h.1, InOrder-weaken s.span.1 b c ss h.2 l)

InOrder-append :
    (a b c : ℕ) (xs ys : List Segment) → InOrder a b xs → InOrder b c ys → InOrder a c (xs ++ ys)
InOrder-append a b c [] [] h k = omega arith
InOrder-append a b c [] (y ∷ ys) h k = (omega arith, k.1, k.2)
InOrder-append a b c (x ∷ xs) ys h k = (h.0, h.1, InOrder-append x.span.1 b c xs ys h.2 k)

-- The transcripts carry the source's own clock.
abbrev pub IsClocked : Update × ℕ → Type 0
IsClocked (up, clock) = up.has_source_end ≡ true

pub record Inv (s : LaneState) : Type 0 where
  pub bounded : 0 < s.committer.policy.max_clause
  pub anchored : IsAnchored s.committer
  pub placed : All (λ (w : Worker). InOrder 0 s.cursor.seg_start w.inbox) s.workers
  pub behind : s.cursor.seg_start ≤ s.cursor.last_source_end
  pub unset : s.cursor.has_source_end ≡ false → s.cursor.last_source_end ≡ 0

pub fanout-InOrder :
    (b c : ℕ) (ws : List Worker) (ss : List Segment)
    → All (λ (w : Worker). InOrder 0 b w.inbox) ws
    → InOrder b c ss
    → All (λ (w : Worker). InOrder 0 c w.inbox) (fanout ws ss)
unfolding fanout
fanout-InOrder b c [] ss h k = tt
fanout-InOrder b c (w ∷ ws) ss h k =
    (InOrder-append 0 b c w.inbox ss h.0 k, fanout-InOrder b c ws ss h.1 k)

pub err-ok : {E A : Type 0} {e : E} {a : A} → err e ≡ ok a → ⊥
err-ok h = cc

-- A committed update moves the cursor's clock forward, and leaves the start of the next segment.
pub record Advances (c : Cursor) (now : ℕ) (c' : Cursor) : Type 0 where
  pub forward : c.last_source_end ≤ now
  pub latest : c'.last_source_end ≡ now
  pub known : c'.has_source_end ≡ true
  pub start : c'.seg_start ≡ c.seg_start

advance_to-Advances :
    (c : Cursor) (z : ℤ) (now : ℕ) (c' : Cursor)
    → (c.has_source_end ≡ false → c.last_source_end ≡ 0)
    → advance_to c z ≡ ok (now, c')
    → Advances c now c'
unfolding advance_to
advance_to-Advances c (negsuc n) now c' unset e = cc
advance_to-Advances c (pos n) now c' unset e =
    elim (Bool-cases (c.has_source_end && ltb n c.last_source_end)) [
      | inl b ↦ absurd (err-ok (rw b at e))
      | inr b ↦
          let same =
            ok-inj {a = (n, record c { last_source_end = n; has_source_end = true })}
              {b = (now, c')} {r = advance_to c (pos n)} (rw (b, advance_to) refl) e in
          let at : n ≡ now = ap (λ p. p.0) same in
          let cur = ap (λ p. p.1) same in
          record {
            forward = elim (Bool-cases c.has_source_end) [
              | inl k ↦ ground arith
              | inr k ↦ omega (arith, unset k)
            ];
            latest = sym (ap (λ k. k.last_source_end) cur) ∙ at;
            known = sym (ap (λ k. k.has_source_end) cur);
            start = sym (ap (λ k. k.seg_start) cur);
          }
    ]

speaks_same :
    (c : Cursor) (lang : Text)
    → ((speaks c lang).last_source_end ≡ c.last_source_end)
      × ((speaks c lang).has_source_end ≡ c.has_source_end)
      × ((speaks c lang).seg_start ≡ c.seg_start)
speaks_same c lang = elim (Bool-cases (is_empty lang)) [
  | inl e ↦ rw e (refl, refl, refl)
  | inr e ↦ rw e (refl, refl, refl)
]

pub advance-Advances :
    (c : Cursor) (up : Update) (clock now : ℕ) (c' : Cursor)
    → up.has_source_end ≡ true
    → (c.has_source_end ≡ false → c.last_source_end ≡ 0)
    → advance c up clock ≡ ok (now, c')
    → Advances c now c'
unfolding advance
advance-Advances c up clock now c' h unset e =
    let (last, has, start) = speaks_same c up.lang in
    let there =
      advance_to-Advances (speaks c up.lang) up.source_end now c' (λ f. last ∙ unset (sym has ∙ f))
        (rw h at e) in
    record {
      forward = omega (arith, there.forward, last);
      latest = there.latest;
      known = there.known;
      start = there.start ∙ start;
    }

module _ (u : Unicode) (supports : Text → Text → Bool) (targets : List Text) where
  abbrev pub after : Bool → ℕ → Cursor → List Worker → List Text × Committer → LaneState
  after final now c ws (clauses, k) =
      let out = emit c.lang c.seg_start now clauses in
      record {
        committer = k;
        cursor = record c { seg_start = if final then now else out.1 };
        workers = fanout ws out.0;
      }

  pub deliver-after :
      (final : Bool) (now : ℕ) (c : Cursor) (ws : List Worker) (clauses : List Text) (k : Committer)
      (s : LaneState)
      → deliver u supports targets final now c ws (clauses, k) ≡ ok s
      → after final now c ws (clauses, k) ≡ s
  unfolding deliver emit_validated
  deliver-after final now c ws clauses k s e =
      elim (Option-cases (validated u supports clauses c.lang targets)) [
        | inl v ↦
            ok-inj {r = deliver u supports targets final now c ws (clauses, k)}
              (rw (v, deliver, emit_validated) refl) e
        | inr (x, v) ↦ absurd (err-ok (rw (v, deliver) at e))
      ]

  start-le :
      (final : Bool) (now : ℕ) (c : Cursor) (clauses : List Text)
      → c.seg_start ≤ now
      → ((emit c.lang c.seg_start now clauses).1
          ≤ (if final then now else (emit c.lang c.seg_start now clauses).1))
        × ((if final then now else (emit c.lang c.seg_start now clauses).1) ≤ now)
  start-le final now c clauses le =
      let e = (emit-Emits c.lang c.seg_start now clauses).stop in ground arith

  pub sent-InOrder :
      (final : Bool) (now : ℕ) (c : Cursor) (clauses : List Text)
      → c.seg_start ≤ now
      → InOrder c.seg_start
          (if final then now else (emit c.lang c.seg_start now clauses).1)
          (emit c.lang c.seg_start now clauses).0
  sent-InOrder final now c clauses le =
      let out = emit c.lang c.seg_start now clauses in
      InOrder-weaken c.seg_start out.1 _ out.0
        (Abuts-InOrder c.seg_start out.1 out.0 (emit-Emits c.lang c.seg_start now clauses).abuts)
        (start-le final now c clauses le).0

  -- What is sent keeps the workers in order, and the next segment starts no later than at `now`.
  pub after-Inv :
      (final : Bool) (now : ℕ) (c : Cursor) (ws : List Worker) (clauses : List Text) (k : Committer)
      → All (λ (w : Worker). InOrder 0 c.seg_start w.inbox) ws
      → c.seg_start ≤ now
      → 0 < k.policy.max_clause
      → IsAnchored k
      → c.last_source_end ≡ now
      → c.has_source_end ≡ true
      → Inv (after final now c ws (clauses, k))
  after-Inv final now c ws clauses k placed le m a latest known =
      let e = emit-Emits c.lang c.seg_start now clauses in
      let out = emit c.lang c.seg_start now clauses in
      record {
        bounded = m;
        anchored = a;
        placed =
            fanout-InOrder c.seg_start (if final then now else out.1) ws out.0 placed
              (sent-InOrder final now c clauses le);
        behind = omega (arith, start-le final now c clauses le, latest);
        unset = λ f. cc (f, known);
      }
