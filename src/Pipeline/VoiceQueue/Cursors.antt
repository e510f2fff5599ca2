-- ===== src/Pipeline/VoiceQueue/Cursors.antt =====
-- Each operation on one cursor keeps the invariant of its queue, and none closes the channel twice.
use prukka.Base.{
  ℕ, zero, suc, ◌+◌, ◌<◌, ◌≡◌, sym, ◌∙◌, Bool, true, false, not, ◌||◌, some, List, [], ◌∷◌, inl,
  inr, arith, length, get_elem?, All-get, All-set, Bool-cases, Option-cases,
}
use prukka.Pipeline.Group.{PlayoutGroup, IsSound, acquire, release-IsSound, seal-IsSound}
use prukka.Pipeline.VoiceQueue.{
  VoiceCursor, VoiceQueue, begin_locked, put_cursor, pull, next_at, next_into, begin_playout,
  release_at, release_playout, seal_playout,
}
use prukka.Pipeline.VoiceQueue.Invariant.{count_listed, count_listed-set, CursorOk, Inv}

put_cursor-Inv :
    (q : VoiceQueue) (i : ℕ) (c d : VoiceCursor) (g : PlayoutGroup)
    → Inv q
    → get_elem? q.cursors i ≡ some c
    → CursorOk (length q.buf) d
    → IsSound g
    → g.active + count_listed (c ∷ []) ≡ q.group.active + count_listed (d ∷ [])
    → Inv (put_cursor i d g q)
put_cursor-Inv q i c d g v e k s a = record {
  linked = record {
    cursors_ok = All-set (CursorOk (length q.buf)) q.cursors i d v.linked.cursors_ok k;
    counted = omega (arith, v.linked.counted, count_listed-set q.cursors i c d e);
    sound = s;
  };
  capped = v.capped;
}

-- What `beginLocked` promises of the cursor and the group that it returns.
pub record Begins (len : ℕ) (c : VoiceCursor) (g : PlayoutGroup)
    (r : Bool × VoiceCursor × PlayoutGroup) : Type 0 where
  pub ok : CursorOk len r.1
  pub sound : IsSound r.2
  pub balanced : r.2.active + count_listed (c ∷ []) ≡ g.active + count_listed (r.1 ∷ [])
  pub plays : r.0 ≡ r.1.listed
  pub unmoved : r.1.head ≡ c.head

pub begin_locked-Begins :
    (len : ℕ) (c : VoiceCursor) (g : PlayoutGroup)
    → CursorOk len c
    → IsSound g
    → Begins len c g (begin_locked c g)
unfolding begin_locked acquire
begin_locked-Begins len c g k s = record {
  ok = ground arith;
  sound = ground arith;
  balanced = ground arith;
  plays = ground arith;
  unmoved = ground arith;
}

pull-CursorOk :
    (c : VoiceCursor) (n : ℕ) (q : VoiceQueue)
    → CursorOk (length q.buf) c
    → c.listed ≡ true
    → CursorOk (length q.buf) (pull c n q).0
      × (count_listed ((pull c n q).0 ∷ []) ≡ count_listed (c ∷ []))
unfolding pull
pull-CursorOk c n q k l = (ground arith, ground arith)

next_at-Inv :
    (i : ℕ) (c : VoiceCursor) (n : ℕ) (q : VoiceQueue)
    → Inv q
    → get_elem? q.cursors i ≡ some c
    → Inv (next_at i c n q).0
unfolding next_at
next_at-Inv i c n q v e =
    let k = All-get (CursorOk (length q.buf)) q.cursors i c v.linked.cursors_ok e in
    let b = begin_locked-Begins (length q.buf) c q.group k v.linked.sound in
    let r = begin_locked c q.group in
    elim (Bool-cases r.0) [
      | inl plays ↦
          let p = pull-CursorOk r.1 n q b.ok (sym b.plays ∙ plays) in
          rw plays (
            put_cursor-Inv q i c (pull r.1 n q).0 r.2 v e p.0 b.sound
              (omega (arith, b.balanced, p.1)))
      | inr idle ↦ rw idle (put_cursor-Inv q i c r.1 r.2 v e b.ok b.sound b.balanced)
    ]

pub next_into-Inv : (i n : ℕ) (q : VoiceQueue) → Inv q → Inv (next_into i n q).0
unfolding next_into
next_into-Inv i n q v = elim (Option-cases (get_elem? q.cursors i)) [
  | inl e ↦ rw (e, next_into) v
  | inr (c, e) ↦ rw (e, next_into) (next_at-Inv i c n q v e)
]

pub begin_playout-Inv : (i : ℕ) (q : VoiceQueue) → Inv q → Inv (begin_playout i q).0
unfolding begin_playout
begin_playout-Inv i q v = elim (Option-cases (get_elem? q.cursors i)) [
  | inl e ↦ rw (e, begin_playout) v
  | inr (c, e) ↦
      let k = All-get (CursorOk (length q.buf)) q.cursors i c v.linked.cursors_ok e in
      let b = begin_locked-Begins (length q.buf) c q.group k v.linked.sound in
      rw (e, begin_playout)
        (put_cursor-Inv q i c (begin_locked c q.group).1 (begin_locked c q.group).2 v e b.ok b.sound
          b.balanced)
]

count_listed-get :
    (cs : List VoiceCursor) (i : ℕ) (c : VoiceCursor)
    → get_elem? cs i ≡ some c
    → c.listed ≡ true
    → 0 < count_listed cs
count_listed-get [] i c e l = cc
count_listed-get (x ∷ cs) zero c e l = ground arith
count_listed-get (x ∷ cs) (suc i) c e l = ground (arith, count_listed-get cs i c e l)

release_at-Inv :
    (i : ℕ) (c : VoiceCursor) (q : VoiceQueue)
    → Inv q
    → get_elem? q.cursors i ≡ some c
    → (q' : VoiceQueue) × (release_at i c q ≡ some q') × Inv q'
unfolding release_at
release_at-Inv i c q v e =
    let k = All-get (CursorOk (length q.buf)) q.cursors i c v.linked.cursors_ok e in
    elim (Bool-cases (not c.registered || not c.accepted || c.released)) [
      | inl idle ↦ (q, rw idle, v)
      | inr plays ↦
          let l : c.listed ≡ true = ground arith in
          let (g, r, s, fewer, same) =
            release-IsSound q.group v.linked.sound
              (omega (arith, v.linked.counted, count_listed-get q.cursors i c e l)) in
          (
            put_cursor i (record c { released = true; listed = false }) g q,
            rw (plays, r, release_at),
            put_cursor-Inv q i c (record c { released = true; listed = false }) g v e (ground arith)
                s (ground arith),
          )
    ]

-- Retiring a cursor never closes the group's channel a second time, and keeps the invariant.
pub release_playout-Inv :
    (i : ℕ) (q : VoiceQueue) → Inv q → (q' : VoiceQueue) × (release_playout i q ≡ some q') × Inv q'
unfolding release_playout
release_playout-Inv i q v = elim (Option-cases (get_elem? q.cursors i)) [
  | inl e ↦ (q, rw (e, release_playout), v)
  | inr (c, e) ↦ let (q', r, v') = release_at-Inv i c q v e in (q', rw (e, release_playout) r, v')
]

pub seal_playout-Inv :
    (q : VoiceQueue) → Inv q → (q' : VoiceQueue) × (seal_playout q ≡ some q') × Inv q'
unfolding seal_playout
seal_playout-Inv q v =
    let (g, r, s, same, closed) = seal-IsSound q.group v.linked.sound in
    (
      record q { group = g },
      rw (r, seal_playout),
      record {
        linked = record {
          cursors_ok = v.linked.cursors_ok;
          counted = same ∙ v.linked.counted;
          sound = s;
        };
        capped = v.capped;
      },
    )
