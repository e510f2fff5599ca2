-- ===== src/Session/Lanes/Writes.antt =====
-- That the writes of the registry of lanes keep the invariant of Exclusion.
use prukka.Base.{
  ◌≤◌, ◌≡◌, sym, ap, subst, ◌∙◌, true, false, Option, some, inl, inr, arith, leb, Text, Bool-cases,
}
use prukka.Base.Keyed.{find, put, erase, find-put_cases, find-erase_cases}
use prukka.Session.Lanes.{Lane, LaneReg, Runtime, is_lane_exited}
use prukka.Session.Lanes.Exclusion.{is_live, Inv}

pub same_lane : {o : Option Lane} {k l : Lane} → o ≡ some k → o ≡ some l → k ≡ l
same_lane h e = cc (h, e)

pub same_reg : {o : Option LaneReg} {k l : LaneReg} → o ≡ some k → o ≡ some l → k ≡ l
same_reg h e = cc (h, e)

-- The registry writes an entry of the same lane.
pub put-Inv :
    (rt : Runtime) (slug : Text) (r r' : LaneReg)
    → Inv rt
    → find slug rt.regs ≡ some r
    → r'.gen ≡ r.gen
    → (is_lane_exited r'.state ≡ true
        → (l : Lane) → rt.lanes r.gen ≡ some l
        → is_live l.phase ≡ false)
    → Inv (record rt { regs = put slug r' rt.regs })
put-Inv rt slug r r' i f n x = record {
  issued = i.issued;
  registered = λ g l e v.
      (let (q, found, le) = i.registered g l e v in
        elim (find-put_cases l.slug slug r' rt.regs) [
          | inl (same, w) ↦
              let known_reg : r ≡ q =
                same_reg f (subst (λ k. find k rt.regs ≡ some q) (sym same) found) in
              (r', w, omega (arith, le, n, ap (λ z. z.gen) known_reg))
          | inr (other, w) ↦ (q, w ∙ found, le)
        ]);
  known = λ j q e. elim (find-put_cases j slug r' rt.regs) [
    | inl (same, w) ↦
        let written : r' ≡ q = same_reg w e in
        let (l, stands, named, _) = i.known slug r f in
        let at_gen : rt.lanes q.gen ≡ some l =
          ap rt.lanes (ap (λ z. z.gen) (sym written) ∙ n) ∙ stands in
        (l, at_gen, named ∙ same, λ y. x (ap (λ z. is_lane_exited z.state) written ∙ y) l stands)
    | inr (other, w) ↦ i.known j q (sym w ∙ e)
  ];
  chain = λ g h k l a b s n v.
      (let c = i.chain g h k l a b s n v in
        record {
          waits = c.waits;
          on = c.on;
          behind = c.behind;
          lane = c.lane;
          stands = c.stands;
          slug = c.slug;
          undrained = c.undrained;
          after = c.after;
          before = c.before;
        });
}

-- An entry whose lane has exited is deleted: no lane of its session is live.
pub erase-Inv :
    (rt : Runtime) (slug : Text) (r : LaneReg)
    → Inv rt
    → find slug rt.regs ≡ some r
    → is_lane_exited r.state ≡ true
    → Inv (record rt { regs = erase slug rt.regs })
erase-Inv rt slug r i f x =
    let (m, stands, named, dead) = i.known slug r f in
    record {
      issued = i.issued;
      registered = λ g l e v.
          (let (q, found, le) = i.registered g l e v in
            elim (find-erase_cases l.slug slug rt.regs) [
              | inl (same, w) ↦
                  let known_reg : r ≡ q =
                    same_reg f (subst (λ k. find k rt.regs ≡ some q) (sym same) found) in
                  let up_to : g ≤ r.gen = omega (arith, le, ap (λ z. z.gen) known_reg) in
                  absurd (elim (Bool-cases (leb r.gen g)) [
                    | inl z ↦
                        let same_gen : r.gen ≡ g = ground arith in
                        let one : m ≡ l = same_lane stands (ap rt.lanes same_gen ∙ e) in
                        cc (v, dead x, ap (λ y. is_live y.phase) one)
                    | inr z ↦
                        let held =
                          i.chain g r.gen l m e stands (sym (named ∙ same)) (ground arith) v in
                        cc (dead x, ap is_live held.waits)
                  ])
              | inr (other, w) ↦ (q, w ∙ found, le)
            ]);
      known = λ j q e. elim (find-erase_cases j slug rt.regs) [
        | inl (same, w) ↦ cc (w, e)
        | inr (other, w) ↦ i.known j q (sym w ∙ e)
      ];
      chain = λ g h k l a b s n v.
          (let c = i.chain g h k l a b s n v in
            record {
              waits = c.waits;
              on = c.on;
              behind = c.behind;
              lane = c.lane;
              stands = c.stands;
              slug = c.slug;
              undrained = c.undrained;
              after = c.after;
              before = c.before;
            });
    }
