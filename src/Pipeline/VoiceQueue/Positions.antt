-- ===== src/Pipeline/VoiceQueue/Positions.antt =====
-- What a take that arrives does to the read heads: a cursor keeps its place in the history unless the
-- backlog passes the lead cap, and is never moved back.
use prukka.Base.{
  ℕ, zero, suc, ◌+◌, ◌-◌, ◌≤◌, ◌≡◌, ap, min, max, true, ◌&&◌, none, some, List, [], ◌∷◌, ◌++◌, map,
  ◌⊎◌, inl, inr, arith, ltb, if◌then◌else◌, length, get_elem?, Bool-cases,
}
use prukka.Pipeline.Units.{Sample}
use prukka.Pipeline.VoiceQueue.{
  VoiceCursor, VoiceQueue, lowest_head, consumed_locked, clamp_head, discard_locked, compact, shed,
  enqueue, append,
}
use prukka.Pipeline.VoiceQueue.Invariant.{lowest_head-le}
use prukka.Pipeline.VoiceQueue.Timeline.{
  Timeline, compact-Timeline, enqueue-Timeline, length-buf, compact_drop, shed_drop, append_drop,
  append-Timeline,
}

lowest_head-le_head :
    (n : ℕ) (cs : List VoiceCursor) (i : ℕ) (c : VoiceCursor)
    → get_elem? cs i ≡ some c
    → c.listed ≡ true
    → lowest_head n cs ≤ c.head
lowest_head-le_head n [] i c e l = cc
lowest_head-le_head n (x ∷ cs) zero c e l = ground (arith, lowest_head-le (min n x.head) cs)
lowest_head-le_head n (x ∷ cs) (suc i) c e l =
    lowest_head-le_head (if x.listed then min n x.head else n) cs i c e l

-- Compaction drops only what every playing cursor has passed.
compact_drop-le_head :
    (q : VoiceQueue) (i : ℕ) (c : VoiceCursor)
    → get_elem? q.cursors i ≡ some c
    → c.listed ≡ true
    → compact_drop q ≤ c.head
unfolding consumed_locked
compact_drop-le_head q i c e l =
    ground (arith, lowest_head-le_head (length q.buf) q.cursors i c e l)

get-clamp :
    (n : ℕ) (cs : List VoiceCursor) (i : ℕ) (c : VoiceCursor)
    → get_elem? cs i ≡ some c
    → get_elem? (map (clamp_head n) cs) i ≡ some (clamp_head n c)
get-clamp n [] i c e = cc
get-clamp n (x ∷ cs) zero c e = ap (λ o. elim o [ none ↦ none | some y ↦ some (clamp_head n y) ]) e
get-clamp n (x ∷ cs) (suc i) c e = get-clamp n cs i c e

-- The cursor `i` of a queue plays, and its head is at `n`.
abbrev pub PlaysAt : VoiceQueue → ℕ → ℕ → Type 0
PlaysAt q i n =
    (c : VoiceCursor) × (get_elem? q.cursors i ≡ some c) × (c.listed ≡ true) × (c.head ≡ n)

discard-PlaysAt :
    (d : ℕ) (q : VoiceQueue) (i n : ℕ) → PlaysAt q i n → PlaysAt (discard_locked d q) i (n - d)
unfolding discard_locked
discard-PlaysAt d q i n (c, e, l, at) =
    (clamp_head d c, get-clamp d q.cursors i c e, ground arith, ground arith)

compact-PlaysAt :
    (q : VoiceQueue) (i n : ℕ) → PlaysAt q i n → PlaysAt (compact q) i (n - compact_drop q)
unfolding compact
compact-PlaysAt q i n p = elim (Bool-cases (ltb 0 (consumed_locked q))) [
  | inl e ↦ rw e (discard-PlaysAt (consumed_locked q) q i n p)
  | inr e ↦ let z : n - consumed_locked q ≡ n = ground arith in rw (e, z) p
]

shed-PlaysAt : (q : VoiceQueue) (i n : ℕ) → PlaysAt q i n → PlaysAt (shed q) i (n - shed_drop q)
unfolding shed
shed-PlaysAt q i n p = elim (Bool-cases (ltb 0 q.max_lead && ltb q.max_lead (length q.buf))) [
  | inl e ↦ rw e (discard-PlaysAt (length q.buf - q.max_lead) q i n p)
  | inr e ↦ let z : n - 0 ≡ n = omega arith in rw (e, z) p
]

-- A playing cursor stays a playing cursor when a take arrives, and its head moves by what is dropped.
pub append-PlaysAt :
    (at : ℕ) (samples : List Sample) (q : VoiceQueue) (i n : ℕ)
    → PlaysAt q i n
    → PlaysAt (append at samples q).0 i (n - append_drop samples q)
unfolding append
append-PlaysAt at samples q i n p =
    let c = compact-PlaysAt q i n p in
    let s = shed-PlaysAt (enqueue samples (compact q)) i (n - compact_drop q) c in
    let e : n - append_drop samples q
        ≡ n - compact_drop q - shed_drop (enqueue samples (compact q)) =
      omega arith in
    rw e s

max_lead-compact : (q : VoiceQueue) → (compact q).max_lead ≡ q.max_lead
unfolding compact discard_locked
max_lead-compact q = ground arith

-- What `append` drops stays below a head whose backlog, the new take included, fits the cap.
pub append_drop-le_head :
    (samples : List Sample) (q : VoiceQueue) (h : List Sample) (k i n : ℕ)
    → Timeline q h k
    → PlaysAt q i n
    → (q.max_lead ≡ 0) ⊎ (length (h ++ samples) - (k + n) ≤ q.max_lead)
    → append_drop samples q ≤ n
append_drop-le_head samples q h k i n t (c, e, l, at) fits =
    let b = compact_drop-le_head q i c e l in
    let u =
      length-buf (enqueue samples (compact q)) (h ++ samples) (k + compact_drop q)
        (enqueue-Timeline samples (compact q) h (k + compact_drop q) (compact-Timeline q h k t)) in
    ground (arith, max_lead-compact q)

-- When a take arrives, a playing cursor is never moved back in the history, and moves forward only to
-- the first sample that the queue still holds.
pub append-position :
    (at : ℕ) (samples : List Sample) (q : VoiceQueue) (h : List Sample) (k i n : ℕ)
    → Timeline q h k
    → PlaysAt q i n
    → (k' n' : ℕ) × Timeline (append at samples q).0 (h ++ samples) k'
      × PlaysAt (append at samples q).0 i n'
      × (k' + n' ≡ max (k + n) k')
append-position at samples q h k i n t p = (
  k + append_drop samples q,
  n - append_drop samples q,
  (append-Timeline at samples q h k t).0,
  append-PlaysAt at samples q i n p,
  omega arith,
)

-- As long as what the cursor has not played, the take included, fits the lead cap, or there is none,
-- the cursor keeps its place: nothing that it has not played is dropped.
pub append-keeps_unplayed :
    (at : ℕ) (samples : List Sample) (q : VoiceQueue) (h : List Sample) (k i n : ℕ)
    → Timeline q h k
    → PlaysAt q i n
    → (q.max_lead ≡ 0) ⊎ (length (h ++ samples) - (k + n) ≤ q.max_lead)
    → (k' n' : ℕ) × Timeline (append at samples q).0 (h ++ samples) k'
      × PlaysAt (append at samples q).0 i n'
      × (k' + n' ≡ k + n)
append-keeps_unplayed at samples q h k i n t p fits = (
  k + append_drop samples q,
  n - append_drop samples q,
  (append-Timeline at samples q h k t).0,
  append-PlaysAt at samples q i n p,
  omega (arith, append_drop-le_head samples q h k i n t p fits),
)
