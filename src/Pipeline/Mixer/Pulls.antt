-- ===== src/Pipeline/Mixer/Pulls.antt =====
-- What a mixer cursor yields: windows of full length, in order, each rendered once.
use prukka.Base.{
  ℕ, suc, ◌+◌, ◌≤◌, ◌≡◌, refl, sym, ◌∙◌, ap, Bool, true, false, none, some, List, [], ◌∷◌, ◌⊎◌, inl,
  inr, arith, leb, if◌then◌else◌, length, Bool-cases, Option-cases,
}
use prukka.Pipeline.Units.{Sample, duration_for, PullStatus, pull_ready, Pcm, no_pcm}
use prukka.Pipeline.Track.{ready, reserve, window, start, end_of}
use prukka.Pipeline.Track.Window.{length-window}
use prukka.Pipeline.Mixer.{
  Floats, Mixer, MixCursor, mix_sample, mix_loop, mix_into, render, pull_from, pull_started,
  begin_locked, next_into, align_playout_clock, finite_end,
}

module _ (f : Floats) where
  length-mix_loop :
      (m : Mixer f) (gain : f.F) (bed vox : List Sample)
      → length bed ≡ length vox
      → length (mix_loop f m gain bed vox).0 ≡ length vox
  unfolding mix_loop
  length-mix_loop m gain bed [] h = refl
  length-mix_loop m gain [] (v ∷ vox) h = absurd (omega arith)
  length-mix_loop m gain (b ∷ bed) (v ∷ vox) h =
      ap suc (length-mix_loop m (mix_sample f m gain b v).1 bed vox (omega arith))

  length-mix_into :
      (m : Mixer f) (gain : f.F) (bed vox : List Sample)
      → length bed ≡ length vox
      → length (mix_into f m gain bed vox).0 ≡ length vox
  unfolding mix_into
  length-mix_into m gain bed vox h = elim (Bool-cases m.muted) [
    | inl e ↦ rw e refl
    | inr e ↦ rw e (length-mix_loop m gain bed vox h)
  ]

  -- What a rendered window is, and what it leaves behind.
  pub record Renders (n : ℕ) (m : Mixer f) (c : MixCursor f) (r : Mixer f × MixCursor f × Pcm)
      : Type 0 where
    pub stamped : r.2.pts ≡ c.clock
    pub full : length r.2.samples ≡ n
    pub advanced : r.1.clock ≡ c.clock + duration_for n
    pub fenced : c.clock + duration_for n ≤ r.0.voice.floor
    pub started : r.1.started ≡ c.started

  render-Renders : (n : ℕ) (m : Mixer f) (c : MixCursor f) → Renders n m c (render f n m c)
  unfolding render reserve
  render-Renders n m c =
      let voice = reserve (c.clock + duration_for n) m.voice in
      let bed_length = length-window c.clock n m.bed in
      let voice_length = length-window c.clock n voice in
      record {
        stamped = refl;
        full = omega (
          arith,
          voice_length,
          bed_length,
          length-mix_into m c.gain (window c.clock n m.bed) (window c.clock n voice)
              (omega (arith, bed_length, voice_length)),
        );
        advanced = refl;
        fenced = omega arith;
        started = refl;
      }

  -- A cursor that has not started has not moved.
  pub record IsFresh (c : MixCursor f) : Type 0 where
    pub at_rest : c.started ≡ false → c.clock ≡ 0

  begin_locked-clock :
      (m : Mixer f) (c : MixCursor f)
      → ((begin_locked f m c).2.clock ≡ c.clock) × ((begin_locked f m c).2.started ≡ c.started)
  unfolding begin_locked
  begin_locked-clock m c = ground arith

  align-clock-le :
      (now begin n : ℕ) (m : Mixer f) (c : MixCursor f)
      → IsFresh c
      → (c.clock ≤ (align_playout_clock f now begin n m c).clock)
        × (begin ≤ (align_playout_clock f now begin n m c).clock)
        × ((align_playout_clock f now begin n m c).started ≡ true)
  unfolding align_playout_clock
  align-clock-le now begin n m c r = ground arith

  abbrev Pulled : Type 0
  Pulled = Mixer f × MixCursor f × Pcm × PullStatus

  -- A ready window: full, stamped no earlier than the cursor stood, consumed by it, and closed to the
  -- voice, whose later takes are placed after it.
  pub record IsWindow (n : ℕ) (c : MixCursor f) (r : Mixer f × MixCursor f × Pcm × PullStatus)
      : Type 0 where
    pub in_order : c.clock ≤ r.2.pts
    pub full : length r.2.samples ≡ n
    pub advanced : r.1.clock ≡ r.2.pts + duration_for n
    pub fenced : r.2.pts + duration_for n ≤ r.0.voice.floor

  -- Any pull: the cursor never goes back, and what is not ready carries no sound.
  pub record IsPull (c : MixCursor f) (r : Mixer f × MixCursor f × Pcm × PullStatus) : Type 0 where
    pub forward : c.clock ≤ r.1.clock
    pub fresh : IsFresh r.1
    pub silent : (r.3 ≡ pull_ready) ⊎ (r.2 ≡ no_pcm)

  pull_from-IsPull :
      (now n : ℕ) (m : Mixer f) (c : MixCursor f)
      → c.started ≡ true
      → IsPull c (pull_from f now n m c)
  unfolding pull_from
  pull_from-IsPull now n m c s =
      let k = render-Renders n m c in
      let v : ℕ = if m.bed.finished then end_of m.voice else 0 in
      let over : Bool = elim (finite_end f m) [ none ↦ false | some e ↦ leb e c.clock ] in
      elim (Bool-cases over) [
        | inl e ↦ rw e (record {
          forward = omega arith;
          fresh = record { at_rest = λ z. cc (s, z) };
          silent = inr refl;
        })
        | inr e ↦ elim (Bool-cases (ready now c.clock n v m.bed)) [
          | inl g ↦
              rw (e, g)
                (record {
                  forward = omega (arith, k.advanced);
                  fresh = record { at_rest = λ z. cc (s, z, k.started) };
                  silent = inl refl;
                })
          | inr g ↦
              rw (e, g)
                (record {
                  forward = omega arith;
                  fresh = record { at_rest = λ z. cc (s, z) };
                  silent = inr refl;
                })
        ]
      ]

  pull_from-IsWindow :
      (now n : ℕ) (m : Mixer f) (c : MixCursor f)
      → (pull_from f now n m c).3 ≡ pull_ready
      → IsWindow n c (pull_from f now n m c)
  unfolding pull_from
  pull_from-IsWindow now n m c r =
      let k = render-Renders n m c in
      let v : ℕ = if m.bed.finished then end_of m.voice else 0 in
      let over : Bool = elim (finite_end f m) [ none ↦ false | some e ↦ leb e c.clock ] in
      elim (Bool-cases over) [
        | inl e ↦ absurd (ground arith)
        | inr e ↦ elim (Bool-cases (ready now c.clock n v m.bed)) [
          | inl g ↦
              rw (e, g)
                (record {
                  in_order = omega (arith, k.stamped);
                  full = k.full;
                  advanced = omega (arith, k.advanced, k.stamped);
                  fenced = omega (arith, k.fenced, k.stamped);
                })
          | inr g ↦ absurd (ground arith)
        ]
      ]

  pull_started-IsPull :
      (now n : ℕ) (m : Mixer f) (c : MixCursor f) → IsFresh c → IsPull c (pull_started f now n m c)
  unfolding pull_started
  pull_started-IsPull now n m c h = elim (Option-cases (start m.bed)) [
    | inl e ↦ rw (e, pull_started) (record { forward = omega arith; fresh = h; silent = inr refl })
    | inr (begin, e) ↦
        let (le, _, s) = align-clock-le now begin n m c h in
        let p = pull_from-IsPull now n m (align_playout_clock f now begin n m c) s in
        rw (e, pull_started)
          (record { forward = omega (arith, le, p.forward); fresh = p.fresh; silent = p.silent })
  ]

  pull_started-IsWindow :
      (now n : ℕ) (m : Mixer f) (c : MixCursor f)
      → IsFresh c
      → (pull_started f now n m c).3 ≡ pull_ready
      → IsWindow n c (pull_started f now n m c)
  unfolding pull_started
  pull_started-IsWindow now n m c h r = elim (Option-cases (start m.bed)) [
    | inl e ↦ absurd (ground arith)
    | inr (begin, e) ↦
        let (le, _, s) = align-clock-le now begin n m c h in
        let p =
          pull_from-IsWindow now n m (align_playout_clock f now begin n m c)
            (rw (e, pull_started) at r) in
        rw (e, pull_started)
          (record {
            in_order = omega (arith, le, p.in_order);
            full = p.full;
            advanced = p.advanced;
            fenced = p.fenced;
          })
  ]

  IsFresh-begin : (m : Mixer f) (c : MixCursor f) → IsFresh c → IsFresh (begin_locked f m c).2
  IsFresh-begin m c h =
      let (k, s) = begin_locked-clock m c in record { at_rest = λ z. k ∙ h.at_rest (sym s ∙ z) }

  -- Whatever a pull answers, the cursor's clock does not go back, and an answer other than ready
  -- carries no sound.
  pub next_into-IsPull :
      (now n : ℕ) (m : Mixer f) (c : MixCursor f) → IsFresh c → IsPull c (next_into f now n m c)
  unfolding next_into
  next_into-IsPull now n m c h =
      let b = begin_locked f m c in
      let (k, s) = begin_locked-clock m c in
      let h' = IsFresh-begin m c h in
      elim (Bool-cases b.0) [
        | inl e ↦
            let p = pull_started-IsPull now n b.1 b.2 h' in
            rw e
              (record { forward = omega (arith, k, p.forward); fresh = p.fresh; silent = p.silent })
        | inr e ↦ rw e (record { forward = omega (arith, k); fresh = h'; silent = inr refl })
      ]

  -- A ready pull yields a full window, stamped no earlier than where the cursor stood and consumed by
  -- it, and from then on the voice track places no take before the end of that window.
  pub next_into-IsWindow :
      (now n : ℕ) (m : Mixer f) (c : MixCursor f)
      → IsFresh c
      → (next_into f now n m c).3 ≡ pull_ready
      → IsWindow n c (next_into f now n m c)
  unfolding next_into
  next_into-IsWindow now n m c h r =
      let b = begin_locked f m c in
      let (k, s) = begin_locked-clock m c in
      elim (Bool-cases b.0) [
        | inl e ↦
            let p = pull_started-IsWindow now n b.1 b.2 (IsFresh-begin m c h) (rw e at r) in
            rw e (record {
              in_order = omega (arith, k, p.in_order);
              full = p.full;
              advanced = p.advanced;
              fenced = p.fenced;
            })
        | inr e ↦ absurd (ground arith)
      ]
