-- ===== src/Pipeline/VoiceQueue/Timeline.antt =====
-- The queue against its specification: the list of all samples ever enqueued, read at absolute
-- positions. The buffer is a suffix of that list, and its clock is the instant of the first sample kept.
use prukka.Base.{
  ℕ, ◌+◌, ◌-◌, ◌≤◌, ◌<◌, ◌≡◌, refl, sym, ap, ap₂, ◌∙◌, min, ◌&&◌, List, ◌++◌, inl, inr, arith, ltb,
  ◌==◌, if◌then◌else◌, length, take, drop, replicate, length-drop, length-append, drop-drop,
  drop-append, take-min-length, Bool-cases,
}
use prukka.Pipeline.Units.{Sample, silence, pull_ready, duration_for, duration_for_lem}
use prukka.Pipeline.VoiceQueue.{
  VoiceCursor, VoiceQueue, consumed_locked, discard_locked, compact, shed, enqueue, append, pull,
  end_instant,
}
use prukka.Pipeline.VoiceQueue.Invariant.{consumed-le-length}

-- `k` samples of the history `h` are gone from the buffer.
pub record Timeline (q : VoiceQueue) (h : List Sample) (k : ℕ) : Type 0 where
  pub within : k ≤ length h
  pub contents : q.buf ≡ drop k h
  pub stamped : q.clock ≡ duration_for k

pub length-buf :
    (q : VoiceQueue) (h : List Sample) (k : ℕ) → Timeline q h k → length q.buf + k ≡ length h
length-buf q h k t = omega (arith, t.within, ap length t.contents, length-drop k h)

pub discard-Timeline :
    (n : ℕ) (q : VoiceQueue) (h : List Sample) (k : ℕ)
    → Timeline q h k
    → n ≤ length q.buf
    → Timeline (discard_locked n q) h (k + n)
unfolding discard_locked
discard-Timeline n q h k t b = record {
  within = omega (arith, length-buf q h k t);
  contents = rw t.contents (drop-drop n k h);
  stamped =
      omega (arith, t.stamped, duration_for_lem k, duration_for_lem n, duration_for_lem (k + n));
}

pub enqueue-Timeline :
    (samples : List Sample) (q : VoiceQueue) (h : List Sample) (k : ℕ)
    → Timeline q h k
    → Timeline (enqueue samples q) (h ++ samples) k
enqueue-Timeline samples q h k t = record {
  within = omega (arith, t.within, length-append h samples);
  contents = rw t.contents (sym (drop-append k h samples t.within));
  stamped = t.stamped;
}

-- How many samples `compact` and `shed` drop.
abbrev pub compact_drop : VoiceQueue → ℕ
compact_drop q = consumed_locked q

abbrev pub shed_drop : VoiceQueue → ℕ
shed_drop q =
    if ltb 0 q.max_lead && ltb q.max_lead (length q.buf) then length q.buf - q.max_lead else 0

discard_zero-Timeline :
    (q : VoiceQueue) (h : List Sample) (k d : ℕ) → d ≡ 0 → Timeline q h k → Timeline q h (k + d)
discard_zero-Timeline q h k d e t = let z : k + d ≡ k = omega arith in rw z t

pub compact-Timeline :
    (q : VoiceQueue) (h : List Sample) (k : ℕ)
    → Timeline q h k
    → Timeline (compact q) h (k + compact_drop q)
unfolding compact
compact-Timeline q h k t = elim (Bool-cases (ltb 0 (consumed_locked q))) [
  | inl e ↦ rw e (discard-Timeline (consumed_locked q) q h k t (consumed-le-length q))
  | inr e ↦ rw e (discard_zero-Timeline q h k (consumed_locked q) (ground arith) t)
]

pub shed-Timeline :
    (q : VoiceQueue) (h : List Sample) (k : ℕ)
    → Timeline q h k
    → Timeline (shed q) h (k + shed_drop q)
unfolding shed
shed-Timeline q h k t = elim (Bool-cases (ltb 0 q.max_lead && ltb q.max_lead (length q.buf))) [
  | inl e ↦ rw e (discard-Timeline (length q.buf - q.max_lead) q h k t (omega arith))
  | inr e ↦ rw e (discard_zero-Timeline q h k 0 refl t)
]

-- The whole number of samples that one `append` drops.
abbrev pub append_drop : List Sample → VoiceQueue → ℕ
append_drop samples q = compact_drop q + shed_drop (enqueue samples (compact q))

end_instant-Timeline :
    (q : VoiceQueue) (h : List Sample) (k : ℕ)
    → Timeline q h k
    → end_instant q ≡ duration_for (length h)
end_instant-Timeline q h k t = omega (
  arith,
  t.stamped,
  length-buf q h k t,
  duration_for_lem k,
  duration_for_lem (length q.buf),
  duration_for_lem (length h),
)

-- Enqueuing a take extends the history by exactly that take, and returns the instant of its end: no
-- sample is lost, reordered or restamped among those the buffer keeps.
pub append-Timeline :
    (at : ℕ) (samples : List Sample) (q : VoiceQueue) (h : List Sample) (k : ℕ)
    → Timeline q h k
    → Timeline (append at samples q).0 (h ++ samples) (k + append_drop samples q)
      × ((append at samples q).1 ≡ duration_for (length (h ++ samples)))
unfolding append
append-Timeline at samples q h k t =
    let c = compact-Timeline q h k t in
    let e = enqueue-Timeline samples (compact q) h (k + compact_drop q) c in
    let s = shed-Timeline (enqueue samples (compact q)) (h ++ samples) (k + compact_drop q) e in
    let a : k + append_drop samples q
        ≡ k + compact_drop q + shed_drop (enqueue samples (compact q)) =
      omega arith in
    (rw a s, end_instant-Timeline _ (h ++ samples) _ s)

-- The position in the history that the cursor plays next.
abbrev pub position : ℕ → VoiceCursor → ℕ
position k c = k + c.head

-- What the branch of a ready window returns.
pull-ready :
    (c : VoiceCursor) (n : ℕ) (q : VoiceQueue)
    → (pull c n q).2 ≡ pull_ready
    → (0 < length q.buf - c.head)
      × ((pull c n q).1.pts ≡ q.clock + duration_for c.head)
      × ((pull c n q).1.samples
          ≡ take (min (length q.buf - c.head) n) (drop c.head q.buf)
            ++ replicate (n - min (length q.buf - c.head) n) silence)
      × ((pull c n q).0.head ≡ c.head + min (length q.buf - c.head) n)
unfolding pull
pull-ready c n q r = elim (Bool-cases (length q.buf - c.head == 0)) [
  | inl e ↦ absurd (ground arith)
  | inr e ↦ (ground arith, rw e refl, rw e refl, rw e refl)
]

take-pending :
    (d n : ℕ) (xs : List Sample) → take (min (length xs - d) n) (drop d xs) ≡ take n (drop d xs)
take-pending d n xs = rw (sym (length-drop d xs)) (take-min-length n (drop d xs))

-- A ready window is stamped with the instant of its first sample, and holds the samples of the history
-- from there on, with silence only past the end of the history; the cursor moves over exactly those.
pub pull-Timeline :
    (c : VoiceCursor) (n : ℕ) (q : VoiceQueue) (h : List Sample) (k : ℕ)
    → Timeline q h k
    → (pull c n q).2 ≡ pull_ready
    → let p = position k c in
      ((pull c n q).1.pts ≡ duration_for p)
      × (p < length h)
      × ((pull c n q).1.samples ≡ take n (drop p h) ++ replicate (n - (length h - p)) silence)
      × (position k (pull c n q).0 ≡ min (p + n) (length h))
pull-Timeline c n q h k t r =
    let (some_left, stamp, window, moved) = pull-ready c n q r in
    let e = length-buf q h k t in
    let left : length q.buf - c.head ≡ length h - (k + c.head) = omega arith in
    let cut : drop c.head q.buf ≡ drop (k + c.head) h = rw t.contents (drop-drop c.head k h) in
    (
      omega (
        arith,
        stamp,
        t.stamped,
        duration_for_lem k,
        duration_for_lem c.head,
        duration_for_lem (k + c.head),
      ),
      omega arith,
      window
          ∙ ap₂ ◌++◌ (take-pending c.head n q.buf ∙ ap (take n) cut)
              (ap (λ m. replicate m silence) (omega arith)),
      omega arith,
    )
