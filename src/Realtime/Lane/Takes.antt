-- ===== src/Realtime/Lane/Takes.antt =====
-- internal/core/realtime/speak.go: a take is whole or it is not.
use prukka.Base.{
  ℕ, ◌-◌, ◌≤◌, ◌<◌, ◌≡◌, refl, ap, ◌∙◌, ◌⊎◌, max, Bool, true, false, List, [], ◌∷◌, ◌++◌,
  if◌then◌else◌, ltb, ltb→lt, ltb→le, Bool-cases, inl, inr, arith, length, append_assoc, append-nil,
  is_empty, length-append,
}
use prukka.Base.Int.{abs}
use prukka.Base.Result.{Result, ok, err}
use prukka.Base.Flatten.{flatten}
use prukka.Pipeline.Units.{Sample}
use prukka.Pipeline.Pcm.{peak_s16, peak_from}
use prukka.Realtime.Lane.{
  LaneError, terminal, no_audio, take_too_long, max_voice_take_samples, collect_chunks,
  collect_voice_take,
}

empty-nil : {A : Type 0} (xs : List A) → is_empty xs ≡ true → xs ≡ []
empty-nil [] e = refl
empty-nil (x ∷ xs) e = cc

peak_from-max : (peak : ℕ) (xs : List Sample) → peak_from peak xs ≡ max peak (peak_from 0 xs)
unfolding peak_from
peak_from-max peak [] = omega arith
peak_from-max peak (x ∷ xs) =
    omega (arith, peak_from-max (max peak (abs x)) xs, peak_from-max (max 0 (abs x)) xs)

peak_s16-append : (xs ys : List Sample) → peak_s16 (xs ++ ys) ≡ max (peak_s16 xs) (peak_s16 ys)
unfolding peak_s16 peak_from
peak_s16-append [] ys = omega arith
peak_s16-append (x ∷ xs) ys = omega (
  arith,
  peak_from-max (max 0 (abs x)) (xs ++ ys),
  peak_from-max (max 0 (abs x)) xs,
  peak_s16-append xs ys,
)

-- Within the limit the samples are taken whole, with their peak; over it nothing is.
abbrev Collected : List Sample → ℕ → Result LaneError (List Sample × ℕ) → Type 0
Collected samples peak r =
    ((length samples ≤ max_voice_take_samples) × (r ≡ ok (samples, peak)))
    ⊎ ((max_voice_take_samples < length samples) × (r ≡ err take_too_long))

collect_chunks-Collected :
    (take : List Sample) (peak : ℕ) (chunks : List (List Sample))
    → length take ≤ max_voice_take_samples
    → Collected
        (take ++ flatten chunks)
        (max peak (peak_s16 (flatten chunks)))
        (collect_chunks take peak chunks)
unfolding collect_chunks
collect_chunks-Collected take peak [] h =
    let e : max peak (peak_s16 []) ≡ peak = unfold peak_s16 peak_from in omega arith in
    rw (append-nil, e) (inl (h, refl))
collect_chunks-Collected take peak (c ∷ cs) h = elim (Bool-cases (is_empty c)) [
  | inl e ↦
      let none : c ≡ [] = empty-nil c e in rw (e, none) (collect_chunks-Collected take peak cs h)
  | inr e ↦ elim (Bool-cases (ltb (max_voice_take_samples - length take) (length c))) [
    | inl l ↦
        rw (e, l)
          (inr (
            omega (
              arith,
              length-append take (c ++ flatten cs),
              length-append c (flatten cs),
              ltb→lt _ _ l,
            ),
            refl,
          ))
    | inr l ↦
        let peaks : max peak (peak_s16 (c ++ flatten cs))
            ≡ max (max peak (peak_s16 c)) (peak_s16 (flatten cs)) =
          omega (arith, peak_s16-append c (flatten cs)) in
        rw (e, l, ← append_assoc take c (flatten cs), peaks)
          (collect_chunks-Collected (take ++ c) (max peak (peak_s16 c)) cs
            (omega (arith, length-append take c, ltb→le _ _ l)))
  ]
]

-- What a take that is collected answers: an error where it is too long, where the provider failed or where
-- there is nothing in it, and otherwise all of its samples.
abbrev pub take_answer : List Sample → Bool → Result LaneError (List Sample × ℕ)
take_answer samples failed =
    if ltb max_voice_take_samples (length samples)
    then err take_too_long
    else if failed
    then err terminal
    else if is_empty samples
    then err no_audio
    else ok (samples, peak_s16 samples)

-- A voice take is all or nothing: the chunks' samples together and their peak, however the provider cuts them, unless
-- they pass the limit, the provider fails at the end, or there are none.
pub collect_voice_take-take_answer :
    (chunks : List (List Sample)) (failed : Bool)
    → collect_voice_take chunks failed ≡ take_answer (flatten chunks) failed
unfolding collect_voice_take
collect_voice_take-take_answer chunks failed =
    elim (collect_chunks-Collected [] 0 chunks (omega arith)) [
      | inl (fits, e) ↦
          let small : ltb max_voice_take_samples (length (flatten chunks)) ≡ false = ground arith in
          let peak : max 0 (peak_s16 (flatten chunks)) ≡ peak_s16 (flatten chunks) = omega arith in
          let whole : collect_chunks [] 0 chunks ≡ ok (flatten chunks, peak_s16 (flatten chunks)) =
            e ∙ ap (λ (p : ℕ). ok (flatten chunks, p)) peak in
          rw (whole, small, collect_voice_take) refl
      | inr (long, e) ↦
          let large : ltb max_voice_take_samples (length (flatten chunks)) ≡ true = ground arith in
          rw (e, large, collect_voice_take) refl
    ]
