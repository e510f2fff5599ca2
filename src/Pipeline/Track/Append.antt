-- ===== src/Pipeline/Track/Append.antt =====
-- What an append does to the timeline of a track, and where it places its samples.
use prukka.Base.{
  ℕ, ◌+◌, ◌-◌, ◌≤◌, ◌<◌, ◌≡◌, refl, sym, ap, ◌∙◌, max, false, ◌&&◌, List, [], ◌∷◌, ◌++◌, inl, inr,
  arith, length, replicate, is_empty, empty-length, length-append, length-drop, drop-append,
  Bool-cases,
}
use prukka.Pipeline.Units.{
  Sample, silence, samples_for, duration_for, duration_for_lem, duration_for-samples_for-le,
  samples_for-lt,
}
use prukka.Pipeline.Track.{Track, anchor_at, offset_for, place, append, end_of}
use prukka.Pipeline.Track.Timeline.{Laid, place_lem, trim_drop, trim-Laid, first-trim}

-- The length of the silence that `append` lays before the samples.
abbrev pub gap_for : ℕ → Track → ℕ
gap_for at t = offset_for at t - length t.buf

offset_for-ge : (at : ℕ) (t : Track) → length t.buf ≤ offset_for at t
unfolding offset_for
offset_for-ge at t = omega arith

is_empty-append : (xs ys : List Sample) → is_empty (xs ++ ys) ≡ (is_empty xs && is_empty ys)
is_empty-append [] ys = refl
is_empty-append (x ∷ xs) ys = refl

place-fields :
    (offset : ℕ) (samples : List Sample) (t : Track)
    → ((place offset samples t).base ≡ t.base) × ((place offset samples t).first ≡ t.first)
unfolding place
place-fields offset samples t = (refl, refl)

-- What `append` lays: silence up to the offset, then the samples.
abbrev pub laid : ℕ → List Sample → Track → List Sample
laid at samples t = replicate (gap_for at t) silence ++ samples

place-Laid :
    (at : ℕ) (samples : List Sample) (t : Track) (T : List Sample) (k : ℕ)
    → Laid t T k
    → Laid (place (offset_for at t) samples t) (T ++ laid at samples t) k
place-Laid at samples t T k l =
    let grown = place_lem (offset_for at t) samples t (offset_for-ge at t) in
    let (b, f) = place-fields (offset_for at t) samples t in
    record {
      within = omega (arith, l.within, length-append T (laid at samples t));
      contents =
          grown
          ∙ ap (λ xs. xs ++ laid at samples t) l.contents
          ∙ sym (drop-append k T (laid at samples t) l.within);
      stamped = omega (arith, b, f, l.stamped);
      alive =
          ap is_empty grown
          ∙ is_empty-append t.buf (laid at samples t)
          ∙ ap (λ e. e && is_empty (laid at samples t)) l.alive
          ∙ sym (is_empty-append T (laid at samples t));
    }

pub anchor_at-Laid :
    (now at : ℕ) (t : Track) (T : List Sample) (k : ℕ) → Laid t T k → Laid (anchor_at now at t) T k
unfolding anchor_at
anchor_at-Laid now at t T k l = elim (Bool-cases (is_empty t.buf)) [
  | inl e ↦
      let none_gone : k ≡ 0 = omega (arith, l.within, empty-length T (sym l.alive ∙ e)) in
      rw e (record {
        within = l.within;
        contents = l.contents;
        stamped = omega (arith, duration_for_lem k);
        alive = l.alive;
      })
  | inr e ↦ rw e l
]

-- The track that `append` places into, and the instant that it places at.
abbrev pub anchored : ℕ → ℕ → Track → Track
anchored now at t = anchor_at now (max at t.floor) t

abbrev pub laid_by : ℕ → ℕ → List Sample → Track → List Sample
laid_by now at samples t = laid (max at t.floor) samples (anchored now at t)

-- An append never rewrites what was laid before: the timeline grows at its end only, by silence up to
-- the place of the samples, then by the samples; the instant returned is that of the first of them.
pub append-Laid :
    (now at : ℕ) (samples : List Sample) (t : Track) (T : List Sample) (k : ℕ)
    → Laid t T k
    → (k' gap : ℕ) × Laid (append now at samples t).0 (T ++ (replicate gap silence ++ samples)) k'
      × (k ≤ k')
      × ((append now at samples t).1
          ≡ (append now at samples t).0.first + duration_for (length T + gap))
unfolding append
append-Laid now at samples t T k l =
    let at' = max at t.floor in
    let t₁ = anchor_at now at' t in
    let l₁ = anchor_at-Laid now at' t T k l in
    let t₂ = place (offset_for at' t₁) samples t₁ in
    let l₂ = place-Laid at' samples t₁ T k l₁ in
    (
      k + trim_drop t₂,
      gap_for at' t₁,
      trim-Laid t₂ (T ++ laid at' samples t₁) k l₂,
      omega arith,
      omega (
        arith,
        l₁.stamped,
        l₁.within,
        first-trim t₂,
        (place-fields (offset_for at' t₁) samples t₁).1,
        offset_for-ge at' t₁,
        ap length l₁.contents,
        length-drop k T,
        duration_for_lem k,
        duration_for_lem (offset_for at' t₁),
        duration_for_lem (length T + gap_for at' t₁),
      ),
    )

offset-bounds :
    (at : ℕ) (t : Track)
    → (at < t.base + duration_for (offset_for at t) + 62500)
      × (t.base + duration_for (offset_for at t)
          ≤ max (max at t.base) (t.base + duration_for (length t.buf)))
unfolding offset_for
offset-bounds at t =
    let n = samples_for (at - t.base) in
    (
      omega (
        arith,
        samples_for-lt (at - t.base),
        duration_for_lem n,
        duration_for_lem (max n (length t.buf)),
      ),
      omega (
        arith,
        duration_for-samples_for-le (at - t.base),
        duration_for_lem n,
        duration_for_lem (length t.buf),
        duration_for_lem (max n (length t.buf)),
      ),
    )

-- Samples are placed no earlier than asked for and than the rendered part allows, to within the grid of
-- one sample, and later only where speech already placed is in the way.
pub append-placed :
    (now at : ℕ) (samples : List Sample) (t : Track)
    → (max at t.floor < (append now at samples t).1 + 62500)
      × ((append now at samples t).1 ≤ max (max at t.floor) (end_of t))
unfolding append anchor_at end_of
append-placed now at samples t = elim (Bool-cases (is_empty t.buf)) [
  | inl e ↦ rw e (omega (arith, empty-length t.buf e), omega (arith, empty-length t.buf e))
  | inr e ↦ rw e (omega arith, omega arith)
]

pub append-first :
    (now at : ℕ) (samples : List Sample) (t : Track)
    → is_empty t.buf ≡ false
    → (append now at samples t).0.first ≡ t.first
unfolding append anchor_at
append-first now at samples t live = rw live (
    first-trim (place (offset_for (max at t.floor) t) samples t)
    ∙ (place-fields (offset_for (max at t.floor) t) samples t).1)
