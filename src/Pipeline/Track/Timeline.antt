-- ===== src/Pipeline/Track/Timeline.antt =====
-- The track against its specification: the whole timeline that was ever laid, gaps of silence included.
-- The buffer is a suffix of it.
use prukka.Base.{
  ℕ, ◌+◌, ◌-◌, ◌≤◌, ◌<◌, ◌≡◌, refl, sym, ap, ap₂, ◌∙◌, false, List, [], ◌∷◌, ◌++◌, inl, inr, arith,
  ltb, leb, if◌then◌else◌, length, take, drop, replicate, is_empty, length-append, length-drop,
  length-replicate, drop-drop, drop-all, take-all, take-append-add, take-replicate, append-nil,
  append_assoc, Bool-cases,
}
use native.Mathlib.Nat.{le_refl}
use prukka.Pipeline.Units.{Sample, silence, samples_for, duration_for, duration_for_lem}
use prukka.Pipeline.Track.{
  Track, track_keep, track_slack, drop_to, fenced_keep, trim, copy_at, place,
}

-- `k` samples of the timeline `T` are gone from the buffer.
pub record Laid (t : Track) (T : List Sample) (k : ℕ) : Type 0 where
  pub within : k ≤ length T
  pub contents : t.buf ≡ drop k T
  pub stamped : t.base ≡ t.first + duration_for k
  pub alive : is_empty t.buf ≡ is_empty T

grown-eq :
    (buf samples : List Sample) (offset : ℕ)
    → length buf ≤ offset
    → copy_at offset samples (buf ++ replicate (offset + length samples - length buf) silence)
      ≡ buf ++ (replicate (offset - length buf) silence ++ samples)
grown-eq buf samples offset h =
    let g = offset - length buf in
    let e : offset ≡ length buf + g = omega arith in
    let m = offset + length samples - length buf in
    let cut : take offset (buf ++ replicate m silence) ≡ buf ++ replicate g silence =
      ap (λ n. take n (buf ++ replicate m silence)) e
      ∙ take-append-add g buf (replicate m silence)
      ∙ ap (◌++◌ buf) (take-replicate g m silence (omega arith)) in
    let rest : drop (offset + length samples) (buf ++ replicate m silence) ≡ [] =
      drop-all (offset + length samples) (buf ++ replicate m silence)
        (omega (arith, length-append buf (replicate m silence), length-replicate m silence)) in
    ap₂ ◌++◌ cut (ap (◌++◌ samples) rest ∙ append-nil samples)
    ∙ append_assoc buf (replicate g silence) samples

no_samples : (xs : List Sample) → length xs ≡ 0 → xs ≡ []
no_samples [] e = refl
no_samples (x ∷ xs) e = absurd (omega arith)

-- Placing samples at an offset past the buffer leaves the buffer, and fills the gap with silence.
pub place_lem :
    (offset : ℕ) (samples : List Sample) (t : Track)
    → length t.buf ≤ offset
    → (place offset samples t).buf ≡ t.buf ++ (replicate (offset - length t.buf) silence ++ samples)
unfolding place
place_lem offset samples t h = elim (Bool-cases (ltb (length t.buf) (offset + length samples))) [
  | inl e ↦ rw e (grown-eq t.buf samples offset h)
  | inr e ↦
      let none_new : samples ≡ [] = no_samples samples (ground arith) in
      let same : offset ≡ length t.buf = ground arith in
      let z : length t.buf - length t.buf ≡ 0 = omega arith in
      rw (
        e,
        none_new,
        same,
        z,
        take-all (length t.buf) t.buf (le_refl _),
        drop-all (length t.buf + 0) t.buf (omega arith),
      )
]

pub not_empty : (xs : List Sample) → 0 < length xs → is_empty xs ≡ false
not_empty [] h = absurd (omega arith)
not_empty (x ∷ xs) h = refl

drop_to-Laid :
    (keep : ℕ) (t : Track) (T : List Sample) (k : ℕ)
    → Laid t T k
    → 0 < keep
    → keep < length t.buf
    → Laid (drop_to keep t) T (k + (length t.buf - keep))
unfolding drop_to
drop_to-Laid keep t T k l pos less =
    let total : length t.buf + k ≡ length T =
      omega (arith, l.within, ap length l.contents, length-drop k T) in
    record {
      within = omega (arith, total);
      contents = rw l.contents (drop-drop (length (drop k T) - keep) k T);
      stamped = omega (
        arith,
        l.stamped,
        duration_for_lem k,
        duration_for_lem (length t.buf - keep),
        duration_for_lem (k + (length t.buf - keep)),
      );
      alive =
          not_empty (drop (length t.buf - keep) t.buf)
            (omega (arith, length-drop (length t.buf - keep) t.buf))
          ∙ sym (not_empty T (omega arith));
    }

keep-pos : (t : Track) → 0 < samples_for (track_keep + t.delay)
unfolding samples_for
keep-pos t = omega arith

keep-le-fenced : (keep : ℕ) (t : Track) → keep ≤ fenced_keep keep t
unfolding fenced_keep
keep-le-fenced keep t = ground arith

-- How many samples `trim` drops.
pub trim_drop : Track → ℕ
trim_drop t =
    let keep = samples_for (track_keep + t.delay) in
    let kept = fenced_keep keep t in
    if leb (length t.buf) (keep + samples_for track_slack)
    then 0
    else if leb (length t.buf) (kept + samples_for track_slack)
    then 0
    else length t.buf - kept

pub trim-Laid :
    (t : Track) (T : List Sample) (k : ℕ) → Laid t T k → Laid (trim t) T (k + trim_drop t)
unfolding trim trim_drop
trim-Laid t T k l =
    let keep = samples_for (track_keep + t.delay) in
    let kept = fenced_keep keep t in
    let same : k + 0 ≡ k = omega arith in
    elim (Bool-cases (leb (length t.buf) (keep + samples_for track_slack))) [
      | inl e ↦ rw (e, same) l
      | inr e ↦ elim (Bool-cases (leb (length t.buf) (kept + samples_for track_slack))) [
        | inl f ↦ rw (e, f, same) l
        | inr f ↦
            rw (e, f)
              (drop_to-Laid kept t T k l (omega (arith, keep-pos t, keep-le-fenced keep t))
                (ground arith))
      ]
    ]

pub first-trim : (t : Track) → (trim t).first ≡ t.first
unfolding trim drop_to
first-trim t = ground arith
