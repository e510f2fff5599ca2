-- ===== src/Captions/Layouts.antt =====
-- internal/media/egress/vtt: the cues of a text tile its time and hold its lines, and the rolling document
-- holds the last cues.
use prukka.Base.{
  ℕ, ◌+◌, ◌-◌, ◌≤◌, ◌<◌, ◌≡◌, ◌≢◌, refl, sym, ap, ◌∙◌, Bool, true, false, List, [], ◌∷◌, ◌++◌, inl,
  inr, arith, if◌then◌else◌, ◌==◌, Bool-cases, length, drop, All, length-drop, length-append,
  drop-append, drop-drop, Text, space, append-nil, append_assoc, is_empty, trim_func,
}
use prukka.Base.Flatten.{flatten, bare}
use prukka.Captions.{
  max_line_chars, max_lines, max_cues, Cue, TranslatedSegment, wrap, groups, chars, lay_out, layout,
  push, push_all, append, cue_duration,
}
use prukka.Captions.Wrapping.{Fits, wrap-Fits, wrap-bare}

-- The cues run from `start` to `stop`, each one from where the one before it ends.
abbrev pub Tiles : ℕ → ℕ → List Cue → Type 0
Tiles start stop [] = start ≡ stop
Tiles start stop (c ∷ []) = (c.start ≡ start) × (c.end ≡ stop)
Tiles start stop (c ∷ d ∷ more) = (c.start ≡ start) × Tiles c.end stop (d ∷ more)

-- At most `max_lines` lines of at most `max_line_chars` characters, and at least one.
pub record FitsCue (c : Cue) : Type 0 where
  pub some_line : 0 < length c.lines
  pub few_lines : length c.lines ≤ max_lines
  pub short_lines : All (Fits max_line_chars) c.lines

abbrev pub lines_of : List Cue → List Text
lines_of [] = []
lines_of (c ∷ cs) = c.lines ++ lines_of cs

module _ (share : ℕ → ℕ → ℕ → ℕ) where
  lay_out-Tiles :
      (total start dur at : ℕ) (g : List Text) (gs : List (List Text))
      → Tiles at (start + dur) (lay_out share total start dur at (g ∷ gs))
  unfolding lay_out
  lay_out-Tiles total start dur at g [] = (refl, refl)
  lay_out-Tiles total start dur at g (h ∷ []) = (refl, (refl, refl))
  lay_out-Tiles total start dur at g (h ∷ i ∷ gs) =
      (refl, lay_out-Tiles total start dur (at + share dur (chars g) total) h (i ∷ gs))

  lay_out-lines :
      (total start dur at : ℕ) (gs : List (List Text))
      → lines_of (lay_out share total start dur at gs) ≡ flatten gs
  unfolding lay_out
  lay_out-lines total start dur at [] = refl
  lay_out-lines total start dur at (g ∷ []) = refl
  lay_out-lines total start dur at (g ∷ h ∷ gs) =
      ap (◌++◌ g) (lay_out-lines total start dur (at + share dur (chars g) total) (h ∷ gs))

abbrev IsGroup : List Text → Type 0
IsGroup g = (0 < length g) × (length g ≤ max_lines) × All (Fits max_line_chars) g

groups-IsGroup : (lines : List Text) → All (Fits max_line_chars) lines → All IsGroup (groups lines)
unfolding groups
groups-IsGroup [] h = tt
groups-IsGroup (a ∷ []) h = ((omega arith, omega arith, (h.0, tt)), tt)
groups-IsGroup (a ∷ b ∷ lines) h =
    ((omega arith, omega arith, (h.0, (h.1.0, tt))), groups-IsGroup lines h.1.1)

groups-flatten : (lines : List Text) → flatten (groups lines) ≡ lines
unfolding groups
groups-flatten [] = refl
groups-flatten (a ∷ []) = refl
groups-flatten (a ∷ b ∷ lines) = ap (λ rest. a ∷ b ∷ rest) (groups-flatten lines)

lay_out-FitsCue :
    (share : ℕ → ℕ → ℕ → ℕ) (total start dur at : ℕ) (gs : List (List Text))
    → All IsGroup gs
    → All FitsCue (lay_out share total start dur at gs)
unfolding lay_out
lay_out-FitsCue share total start dur at [] h = tt
lay_out-FitsCue share total start dur at (g ∷ []) h =
    (record { some_line = h.0.0; few_lines = h.0.1; short_lines = h.0.2 }, tt)
lay_out-FitsCue share total start dur at (g ∷ i ∷ gs) h = (
  record { some_line = h.0.0; few_lines = h.0.1; short_lines = h.0.2 },
  lay_out-FitsCue share total start dur (at + share dur (chars g) total) (i ∷ gs) h.1,
)

pub record IsLaidOut (p : ℕ → Bool) (text : Text) (start dur : ℕ) (cues : List Cue) : Type 0 where
  pub fits : All FitsCue cues
  pub tiles : Tiles start (start + dur) cues
  pub kept : bare p (flatten (lines_of cues)) ≡ bare p text

module _ (share : ℕ → ℕ → ℕ → ℕ) (p : ℕ → Bool) (text : Text) (start dur : ℕ) where
  abbrev wrapped : List Text
  wrapped = wrap p text max_line_chars

  layout-lines : lines_of (layout share p text start dur) ≡ wrapped
  unfolding layout
  layout-lines =
      lay_out-lines share (chars wrapped) start dur start (groups wrapped) ∙ groups-flatten wrapped

  layout-kept :
      p space ≡ true → bare p (flatten (lines_of (layout share p text start dur))) ≡ bare p text
  layout-kept s = rw layout-lines (wrap-bare p max_line_chars text s)

  wrapped-some : p space ≡ true → is_empty (bare p text) ≡ false → wrapped ≢ []
  wrapped-some s n e = cc (none_left, n)
    where
      none_left : bare p text ≡ []
      none_left = sym (wrap-bare p max_line_chars text s) ∙ rw e (unfold bare in refl)

  layout-Tiles :
      (lines : List Text)
      → lines ≢ []
      → Tiles start (start + dur) (lay_out share (chars wrapped) start dur start (groups lines))
  unfolding groups
  layout-Tiles [] n = absurd (n refl)
  layout-Tiles (a ∷ []) n = lay_out-Tiles share (chars wrapped) start dur start (a ∷ []) []
  layout-Tiles (a ∷ b ∷ lines) n =
      lay_out-Tiles share (chars wrapped) start dur start (a ∷ b ∷ []) (groups lines)

  -- The cues of a text with something to read in it hold one or two lines each, none longer than the
  -- budget; they cover the segment's time from its start to its end without a gap, whatever share the
  -- float division gives each cue, and their lines together hold the text's characters in order, with
  -- only spaces lost.
  pub layout-IsLaidOut :
      p space ≡ true
      → is_empty (bare p text) ≡ false
      → IsLaidOut p text start dur (layout share p text start dur)
  layout-IsLaidOut s n = record {
    fits =
        unfold layout in
        lay_out-FitsCue share (chars wrapped) start dur start (groups wrapped)
          (groups-IsGroup wrapped (wrap-Fits p max_line_chars text (omega arith)));
    tiles = unfold layout in layout-Tiles wrapped (wrapped-some s n);
    kept = layout-kept s;
  }

-- The last `max_cues` of the cues.
abbrev pub last_cues : List Cue → List Cue
last_cues cues = drop (length cues - max_cues) cues

push-last_cues : (old : List Cue) (c : Cue) → push (last_cues old) c ≡ last_cues (old ++ (c ∷ []))
unfolding push
push-last_cues old c = elim (Bool-cases (length (last_cues old) == max_cues)) [
  | inl e ↦
      rw
        (
          e,
          drop-drop 1 (length old - max_cues) old,
          one_more,
          next e,
          drop-append (length old - max_cues + 1) old (c ∷ []) (ground (arith, all_kept)),
        )
        refl
  | inr e ↦
      let few : length old - max_cues ≡ 0 = ground (arith, all_kept) in
      let still : length old + 1 - max_cues ≡ 0 = ground (arith, all_kept) in
      rw (e, one_more, few, still) refl
]
  where
    one_more : length (old ++ (c ∷ [])) ≡ length old + 1
    one_more = length-append old (c ∷ [])

    all_kept : length (last_cues old) ≡ length old - (length old - max_cues)
    all_kept = length-drop (length old - max_cues) old

    next :
        (length (last_cues old) == max_cues) ≡ true
        → length old + 1 - max_cues ≡ length old - max_cues + 1
    next e = ground (arith, all_kept)

-- However many cues are pushed, the document holds the last 200 of them, in order.
pub push_all-last_cues :
    (old cues : List Cue) → push_all (last_cues old) cues ≡ last_cues (old ++ cues)
unfolding push_all
push_all-last_cues old [] = rw append-nil
push_all-last_cues old (c ∷ cues) =
    ap (λ now. push_all now cues) (push-last_cues old c)
    ∙ push_all-last_cues (old ++ (c ∷ [])) cues
    ∙ rw (append_assoc old (c ∷ []) cues)

-- The writer's cues after a list of calls of `Append`, and the cues that each call lays out.
module _ (share : ℕ → ℕ → ℕ → ℕ) (p : ℕ → Bool) where
  unfoldable pub append_all : List Cue → List TranslatedSegment → List Cue
  append_all cues [] = cues
  append_all cues (seg ∷ segs) = append_all (append share p cues seg) segs

  abbrev pub laid_out : TranslatedSegment → List Cue
  laid_out seg =
      let text = trim_func p seg.text in
      if is_empty text then [] else layout share p text seg.schedule_at (cue_duration seg.duration)

  abbrev pub all_laid_out : List TranslatedSegment → List Cue
  all_laid_out [] = []
  all_laid_out (seg ∷ segs) = laid_out seg ++ all_laid_out segs

  append-last_cues :
      (old : List Cue) (seg : TranslatedSegment)
      → append share p (last_cues old) seg ≡ last_cues (old ++ laid_out seg)
  unfolding append
  append-last_cues old seg = elim (Bool-cases (is_empty (trim_func p seg.text))) [
    | inl e ↦ rw (e, append-nil) refl
    | inr e ↦ rw e (
        push_all-last_cues old
          (layout share p (trim_func p seg.text) seg.schedule_at (cue_duration seg.duration)))
  ]

  append_all-last_cues :
      (old : List Cue) (segs : List TranslatedSegment)
      → append_all (last_cues old) segs ≡ last_cues (old ++ all_laid_out segs)
  unfolding append_all
  append_all-last_cues old [] = rw append-nil
  append_all-last_cues old (seg ∷ segs) =
      ap (λ now. append_all now segs) (append-last_cues old seg)
      ∙ append_all-last_cues (old ++ laid_out seg) segs
      ∙ rw (append_assoc old (laid_out seg) (all_laid_out segs))

  -- After any list of calls of `Append` a new writer holds the last 200 of the cues that the calls laid
  -- out, in order.
  pub writer-last_cues :
      (segs : List TranslatedSegment) → append_all [] segs ≡ last_cues (all_laid_out segs)
  writer-last_cues segs = append_all-last_cues [] segs
