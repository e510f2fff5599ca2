-- ===== src/Pipeline/Track/Window.antt =====
-- What a window reads: the timeline at its instants, whatever is appended or trimmed meanwhile.
use prukka.Base.{
  ℕ, zero, suc, ◌+◌, ◌-◌, ◌≤◌, ◌<◌, ◌≡◌, refl, sym, ap, ◌∙◌, max, false, List, [], ◌∷◌, ◌++◌, inl,
  inr, arith, ltb, leb, length, drop, replicate, is_empty, empty-length, length-append,
  length-replicate, drop-drop, drop-all, Bool-cases,
}
use prukka.Pipeline.Units.{Sample, silence, samples_for, duration_for, duration_for_lem}
use prukka.Pipeline.Track.{Track, append, window, copy_into}
use prukka.Pipeline.Track.Timeline.{Laid}
use prukka.Pipeline.Track.Append.{append-Laid, append-placed, append-first}

pub length-copy_into : (n : ℕ) (xs : List Sample) → length (copy_into n xs) ≡ n
length-copy_into zero xs = refl
length-copy_into (suc n) [] = ap suc (length-copy_into n [])
length-copy_into (suc n) (x ∷ xs) = ap suc (length-copy_into n xs)

copy_into-nil : (n : ℕ) → copy_into n [] ≡ replicate n silence
copy_into-nil zero = refl
copy_into-nil (suc n) = ap (◌∷◌ silence) (copy_into-nil n)

-- A window has the length asked for, on every branch.
pub length-window : (from n : ℕ) (t : Track) → length (window from n t) ≡ n
unfolding window
length-window from n t =
    let lead = samples_for (t.base - from) in
    ground (
      arith,
      length-replicate n silence,
      length-replicate lead silence,
      length-append (replicate lead silence) (copy_into (n - lead) t.buf),
      length-copy_into (n - lead) t.buf,
      length-copy_into n (drop (samples_for (from - t.base)) t.buf),
    )

abbrev no_audio : List Sample
no_audio = []

past_end : (n : ℕ) (xs : List Sample) → xs ≡ [] → replicate n silence ≡ copy_into n xs
past_end n xs e = rw e (sym (copy_into-nil n))

-- The place in the buffer of an instant that is still held, `k` samples after the first being gone.
samples_for-held :
    (first k base from : ℕ)
    → base ≡ first + duration_for k
    → base ≤ from
    → (samples_for (from - base) ≡ samples_for (from - first) - k)
      × (k ≤ samples_for (from - first))
unfolding samples_for
samples_for-held first k base from e h =
    (omega (arith, duration_for_lem k), omega (arith, duration_for_lem k))

-- From an instant that is still held, a window is the timeline from there on, with silence past its end.
pub window-Laid :
    (t : Track) (T : List Sample) (k from n : ℕ)
    → Laid t T k
    → t.base ≤ from
    → window from n t ≡ copy_into n (drop (samples_for (from - t.first)) T)
unfolding window
window-Laid t T k from n l h =
    let p = samples_for (from - t.first) in
    let (offset, kp) = samples_for-held t.first k t.base from l.stamped h in
    let cut : drop (p - k) t.buf ≡ drop p T =
      ap (drop (p - k)) l.contents ∙ drop-drop (p - k) k T ∙ ap (λ m. drop m T) (omega arith) in
    let held : ltb from t.base ≡ false = ground arith in
    elim (Bool-cases (is_empty t.buf)) [
      | inl e ↦
          rw e
            (past_end n (drop p T) (drop-all p T (omega (arith, empty-length T (sym l.alive ∙ e)))))
      | inr e ↦ elim (Bool-cases (leb (length t.buf) (p - k))) [
        | inl f ↦
            rw (e, held, offset, f)
              (past_end n (drop (p - k) t.buf) (drop-all (p - k) t.buf (ground arith))
                ∙ ap (copy_into n) cut)
        | inr f ↦ rw (e, held, offset, f) (ap (copy_into n) cut)
      ]
    ]

drop-nil : (p : ℕ) → drop p no_audio ≡ no_audio
drop-nil zero = refl
drop-nil (suc p) = refl

-- What lies past `n` samples of a timeline shows in no window of `n` samples.
copy_into-append :
    (n g : ℕ) (xs ys : List Sample)
    → n ≤ length xs + g
    → copy_into n (xs ++ (replicate g silence ++ ys)) ≡ copy_into n xs
copy_into-append zero g xs ys h = refl
copy_into-append (suc n) zero [] ys h = absurd (omega arith)
copy_into-append (suc n) (suc g) [] ys h =
    ap (◌∷◌ silence) (copy_into-append n g [] ys (omega arith))
copy_into-append (suc n) g (x ∷ xs) ys h = ap (◌∷◌ x) (copy_into-append n g xs ys (omega arith))

copy_into-drop-append :
    (p n g : ℕ) (xs ys : List Sample)
    → p + n ≤ length xs + g
    → copy_into n (drop p (xs ++ (replicate g silence ++ ys))) ≡ copy_into n (drop p xs)
copy_into-drop-append zero n g xs ys h = copy_into-append n g xs ys (omega arith)
copy_into-drop-append (suc p) n zero [] ys h = let none_left : n ≡ 0 = omega arith in rw none_left
copy_into-drop-append (suc p) n (suc g) [] ys h =
    copy_into-drop-append p n g [] ys (omega arith) ∙ ap (copy_into n) (drop-nil p)
copy_into-drop-append (suc p) n g (x ∷ xs) ys h = copy_into-drop-append p n g xs ys (omega arith)

-- Samples that are placed at an instant past the floor, to within the grid, leave the grid below the floor.
samples_for-placed :
    (floor first m placed : ℕ)
    → floor < placed + 62500
    → placed ≡ first + duration_for m
    → samples_for (floor - first) ≤ m
unfolding samples_for
samples_for-placed floor first m placed h e = omega (arith, duration_for_lem m)

-- What has been rendered never changes: of a track that holds samples, a window that starts at any
-- instant still held after an append reads the same before and after it, up to the floor that `reserve`
-- set or up to the end of what is laid, whichever is later, counted in whole samples from the track's
-- first instant.
pub window-append :
    (now at : ℕ) (samples : List Sample) (t : Track) (T : List Sample) (k from n : ℕ)
    → Laid t T k
    → is_empty t.buf ≡ false
    → (append now at samples t).0.base ≤ from
    → samples_for (from - t.first) + n ≤ max (samples_for (t.floor - t.first)) (length T)
    → window from n (append now at samples t).0 ≡ window from n t
window-append now at samples t T k from n l live kept within =
    let t' = (append now at samples t).0 in
    let (k', gap, l', grows, placed) = append-Laid now at samples t T k l in
    let same = append-first now at samples t live in
    let (late, early) = append-placed now at samples t in
    let floor_le : samples_for (t.floor - t.first) ≤ length T + gap =
      samples_for-placed t.floor t.first (length T + gap) (append now at samples t).1
        (omega (arith, late)) (placed ∙ ap (λ x. x + duration_for (length T + gap)) same) in
    let held : t.base ≤ from =
      omega (
        arith,
        kept,
        l.stamped,
        l'.stamped,
        same,
        grows,
        duration_for_lem k,
        duration_for_lem k',
      ) in
    window-Laid t' (T ++ (replicate gap silence ++ samples)) k' from n l' kept
    ∙ ap
        (λ x. copy_into n (drop (samples_for (from - x)) (T ++ (replicate gap silence ++ samples))))
        same
    ∙ copy_into-drop-append (samples_for (from - t.first)) n gap T samples
        (omega (arith, within, floor_le))
    ∙ sym (window-Laid t T k from n l held)
