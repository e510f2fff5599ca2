-- ===== src/Session/Store/Refusals.antt =====
-- The steps of internal/core/session/store.go after which a lane can no longer write.
use prukka.Base.{
  ◌+◌, ◌≤◌, ◌<◌, ◌≡◌, sym, ap, subst, true, Option, some, List, inl, inr, arith, Text, length,
}
use prukka.Base.Keyed.{All-find, find, put, find-put}
use prukka.Base.Result.{ok}
use prukka.Session.Model.{Platform, Failure, RuntimeState, Session}
use prukka.Session.Status.{LaneError}
use prukka.Session.Store.{
  Store, LaneId, word, next_revision, update_langs, set_runtime, stamped, notify,
}
use prukka.Session.Store.Outcomes.{update_langs-ok, set_runtime-cases, candidate, same_session}
use prukka.Session.Store.Invariant.{
  Inv, IsEntry, next_revision-lem, update_langs-Inv, set_runtime-Inv,
}
use prukka.Session.Store.Runs.{Op, run}
use prukka.Session.Store.Stale.{is_final, Passed, Closed, Refused, Closed-Refused}

module _ (p : Platform) where
  -- What stands under the slug that was just written.
  Passed-written :
      (id : LaneId) (s : Session) (m : List (Text × Session))
      → Passed id s
      → (t : Session) → find id.slug (put id.slug s m) ≡ some t
      → Passed id t
  Passed-written id s m w t h = subst (Passed id) (same_session (find-put id.slug s m) h) w

  -- Once the targets of a session are updated, no lane of an earlier revision can bind it or set its state,
  -- whatever happens to the registry afterwards.
  pub update-refuses_old :
      (ops : List Op) (st st' : Store) (id : LaneId) (add remove : List Text)
      (check : Session → Option Failure) (s' : Session) (state : RuntimeState)
      (e : Option LaneError)
      → Inv p st
      → st.next_rev + length ops + 1 < word
      → update_langs p st id.slug add remove check ≡ ok (st', s')
      → id.revision ≤ st.next_rev
      → Refused p (run p ops st') id state e
  unfolding notify
  update-refuses_old ops st st' id add remove check s' state e i w h r =
      let u = update_langs-ok p st st' id.slug add remove check s' h in
      let n = next_revision-lem p st (omega arith) in
      let n' : next_revision st ≡ st'.next_rev = ap (λ x. x.next_rev) u.left in
      let written = stamped (candidate u.session add remove) (next_revision st) in
      Closed-Refused p ops st' id state e
        (update_langs-Inv p st st' id.slug add remove check s' i (omega arith) h)
        (omega (arith, n, n'))
        (subst (λ z. Closed z id) u.left
          (record {
            issued = omega (arith, n);
            passed = Passed-written id written st.sessions (inl (omega (arith, n)));
          }))

  -- Once a lane has set a final state it can set no other, and cannot bind its session again.
  pub final-refuses_more :
      (ops : List Op) (st : Store) (id : LaneId) (last state : RuntimeState)
      (e e' : Option LaneError)
      → Inv p st
      → st.next_rev + length ops < word
      → is_final last ≡ true
      → (set_runtime p st id last e).1 ≡ true
      → Refused p (run p ops (set_runtime p st id last e).0) id state e'
  final-refuses_more ops st id last state e e' i w f h = elim (set_runtime-cases p st id last e) [
    | inl g ↦ cc (h, ap (λ r. r.1) g)
    | inr (g, b) ↦
        let entry =
          All-find (IsEntry p st.next_rev) id.slug b.session st.sessions i.entries b.found in
        let next = record b.session {
          runtime = record b.session.runtime { state = last; error = b.error };
        } in
        Closed-Refused p ops (set_runtime p st id last e).0 id state e'
          (set_runtime-Inv p st id last e i) (omega (arith, b.next_rev))
          (record {
            issued = omega (arith, entry.stamped, b.current, b.next_rev);
            passed =
                subst (λ m. (t : Session) → find id.slug m ≡ some t → Passed id t) (sym b.sessions)
                  (Passed-written id next st.sessions (inr (sym b.current, inr (sym b.owned, f))));
          })
  ]
