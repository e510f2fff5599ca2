-- ===== src/Session/Store/Stale.antt =====
-- The lanes that may still write what is observed of a session: a lane that was replaced, or whose state
-- is final, is refused from then on, whatever else happens to the registry.
use prukka.Base.{
  ◌+◌, ◌≤◌, ◌<◌, ◌≡◌, refl, sym, subst, ◌∙◌, Bool, true, false, Option, none, some, List, [], ◌∷◌,
  ◌⊎◌, inl, inr, arith, Text, text_eq, text_eq_sound, length, Bool-cases,
}
use prukka.Base.Keyed.{find, put, erase, find-put, find-put_other, find-erase, find-erase_other}
use prukka.Base.Result.{Result-cases}
use prukka.Session.Model.{
  Platform, RuntimeState, unset, starting, running, finished, failed, Session,
}
use prukka.Session.Status.{LaneError, valid_runtime_transition}
use prukka.Session.Store.{
  Store, LaneId, word, next_revision, create, update_langs, bind_runtime, set_runtime, delete,
  stamped, notify, subscribe, unsubscribe,
}
use prukka.Session.Store.Outcomes.{
  create-ok, update_langs-ok, delete-ok, bind_runtime-cases, set_runtime-cases, bound, candidate,
  same_session,
}
use prukka.Session.Store.Invariant.{Inv, CanStamp, next_revision-lem}
use prukka.Session.Store.Runs.{
  Op, creates, updates, binds, sets, deletes, subscribes, unsubscribes, receives, step, run,
  step-Steps,
}

abbrev pub is_final : RuntimeState → Bool
is_final unset = false
is_final starting = false
is_final running = false
is_final finished = true
is_final failed = true

final-refuses :
    (from to : RuntimeState) → is_final from ≡ true → valid_runtime_transition from to ≡ false
unfolding valid_runtime_transition
final-refuses unset to h = cc
final-refuses starting to h = cc
final-refuses running to h = cc
final-refuses finished to h = refl
final-refuses failed to h = refl

-- The session that stands under the lane's slug has moved on: to a later revision, to a later lane, or to
-- the lane's own final state.
abbrev pub Passed : LaneId → Session → Type 0
Passed id s =
    (id.revision < s.revision)
    ⊎ ((id.revision ≡ s.revision)
        × ((id.gen < s.runtime.gen)
            ⊎ ((id.gen ≡ s.runtime.gen) × (is_final s.runtime.state ≡ true))))

-- A lane that can no longer write: its revision was handed out, and any session under its slug has moved
-- on.
pub record Closed (st : Store) (id : LaneId) : Type 0 where
  pub issued : id.revision ≤ st.next_rev
  pub passed : (s : Session) → find id.slug st.sessions ≡ some s → Passed id s

-- The sessions of the registry after a write, where the slug is that of the lane or another.
Passed-put :
    (slug : Text) (id : LaneId) (s : Session) (m : List (Text × Session))
    → ((t : Session) → find id.slug m ≡ some t → Passed id t)
    → (slug ≡ id.slug → Passed id s)
    → (t : Session) → find id.slug (put slug s m) ≡ some t
    → Passed id t
Passed-put slug id s m c w t h = elim (Bool-cases (text_eq slug id.slug)) [
  | inl e ↦
      let same = text_eq_sound slug id.slug e in
      let found : find id.slug (put slug s m) ≡ some s =
        subst (λ k. find k (put slug s m) ≡ some s) same (find-put slug s m) in
      subst (Passed id) (same_session found h) (w same)
  | inr e ↦ c t (sym (find-put_other id.slug slug s m e) ∙ h)
]

Passed-erase :
    (slug : Text) (id : LaneId) (m : List (Text × Session))
    → ((t : Session) → find id.slug m ≡ some t → Passed id t)
    → (t : Session) → find id.slug (erase slug m) ≡ some t
    → Passed id t
Passed-erase slug id m c t h = elim (Bool-cases (text_eq slug id.slug)) [
  | inl e ↦
      let gone : find id.slug (erase slug m) ≡ none =
        subst (λ k. find k (erase slug m) ≡ none) (text_eq_sound slug id.slug e)
          (find-erase slug m) in
      absurd (cc (gone, h))
  | inr e ↦ c t (sym (find-erase_other id.slug slug m e) ∙ h)
]

-- The two halves of a refusal: a lane that is closed can neither take the session over nor write to it.
refused-bind : (st : Store) (id : LaneId) → Closed st id → bind_runtime st id ≡ (st, false)
refused-bind st id c = elim (bind_runtime-cases st id) [
  | inl e ↦ e
  | inr (e, b) ↦ absurd (elim (c.passed b.session b.found) [
    | inl l ↦ omega (arith, l, b.current)
    | inr (q, inl l) ↦ omega (arith, l, b.newer)
    | inr (q, inr (g, f)) ↦ omega (arith, g, b.newer)
  ])
]

module _ (p : Platform) where
  refused-set :
      (st : Store) (id : LaneId) (state : RuntimeState) (e : Option LaneError)
      → Closed st id
      → set_runtime p st id state e ≡ (st, false)
  refused-set st id state e c = elim (set_runtime-cases p st id state e) [
    | inl r ↦ r
    | inr (r, b) ↦ absurd (elim (c.passed b.session b.found) [
      | inl l ↦ omega (arith, l, b.current)
      | inr (q, inl l) ↦ omega (arith, l, b.owned)
      | inr (q, inr (g, f)) ↦ cc (final-refuses b.session.runtime.state state f, b.allowed)
    ])
  ]

  Closed-step :
      (op : Op) (st : Store) (id : LaneId)
      → Inv p st
      → CanStamp p st
      → Closed st id
      → Closed (step p op st) id
  unfolding step notify subscribe unsubscribe
  Closed-step (creates s) st id i w c = elim (Result-cases (create p st s)) [
    | inr (x, e) ↦ rw (e, step) c
    | inl (st', e) ↦
        let k = create-ok p st st' s e in
        let n = next_revision-lem p st w in
        rw (e, step)
          (subst (λ z. Closed z id) k.left
            (record {
              issued = omega (arith, c.issued, n);
              passed =
                  Passed-put s.slug id (stamped s (next_revision st)) st.sessions c.passed
                    (λ q. inl (omega (arith, c.issued, n)));
            }))
  ]
  Closed-step (updates slug add remove check) st id i w c =
      elim (Result-cases (update_langs p st slug add remove check)) [
        | inr (x, e) ↦ rw (e, step) c
        | inl (r, e) ↦
            let k = update_langs-ok p st r.0 slug add remove check r.1 e in
            let n = next_revision-lem p st w in
            rw (e, step)
              (subst (λ z. Closed z id) k.left
                (record {
                  issued = omega (arith, c.issued, n);
                  passed =
                      Passed-put slug id
                        (stamped (candidate k.session add remove) (next_revision st)) st.sessions
                        c.passed (λ q. inl (omega (arith, c.issued, n)));
                }))
      ]
  Closed-step (binds other) st id i w c = elim (bind_runtime-cases st other) [
    | inl e ↦ rw (e, step) c
    | inr (e, b) ↦ record {
      issued = omega (arith, c.issued, b.next_rev);
      passed =
          subst (λ m. (t : Session) → find id.slug m ≡ some t → Passed id t) (sym b.sessions)
            (Passed-put other.slug id (bound b.session other) st.sessions c.passed (λ q.
              later_lane id b.session other b.newer
                (c.passed b.session (subst (λ k. find k st.sessions ≡ some b.session) q b.found))));
    }
  ]
    where
      later_lane :
          (id : LaneId) (s : Session) (other : LaneId)
          → s.runtime.gen < other.gen
          → Passed id s
          → Passed id (bound s other)
      later_lane id s other n (inl l) = inl l
      later_lane id s other n (inr (q, inl l)) = inr (q, inl (omega (arith, l, n)))
      later_lane id s other n (inr (q, inr (g, f))) = inr (q, inl (omega (arith, g, n)))
  Closed-step (sets other state e) st id i w c = elim (set_runtime-cases p st other state e) [
    | inl r ↦ rw (r, step) c
    | inr (r, b) ↦
        let next = record b.session {
          runtime = record b.session.runtime { state = state; error = b.error };
        } in
        record {
          issued = omega (arith, c.issued, b.next_rev);
          passed =
              subst (λ m. (t : Session) → find id.slug m ≡ some t → Passed id t) (sym b.sessions)
                (Passed-put other.slug id next st.sessions c.passed (λ q.
                  elim (c.passed b.session
                    (subst (λ k. find k st.sessions ≡ some b.session) q b.found)) [
                      | inl l ↦ inl l
                      | inr (v, inl l) ↦ inr (v, inl l)
                      | inr (v, inr (g, f)) ↦
                          cc (final-refuses b.session.runtime.state state f, b.allowed)
                    ]));
        }
  ]
  Closed-step (deletes slug) st id i w c = elim (Result-cases (delete st slug)) [
    | inr (x, e) ↦ rw (e, step) c
    | inl (st', e) ↦
        let d = delete-ok st st' slug e in
        let once = Passed-erase slug id st.sessions c.passed in
        rw (e, step)
          (elim d.left [
            | inl (l, _) ↦ subst (λ z. Closed z id) l (record { issued = c.issued; passed = once })
            | inr (paired, f, r, l) ↦
                subst (λ z. Closed z id) l
                  (record {
                    issued = c.issued;
                    passed = Passed-erase d.session.pair id (erase slug st.sessions) once;
                  })
          ])
  ]
  Closed-step subscribes st id i w c = record { issued = c.issued; passed = c.passed }
  Closed-step (unsubscribes n) st id i w c = record { issued = c.issued; passed = c.passed }
  Closed-step (receives n) st id i w c = record { issued = c.issued; passed = c.passed }

  Closed-run :
      (ops : List Op) (st : Store) (id : LaneId)
      → Inv p st
      → st.next_rev + length ops < word
      → Closed st id
      → Closed (run p ops st) id
  unfolding run
  Closed-run [] st id i w c = c
  Closed-run (op ∷ ops) st id i w c =
      let k = step-Steps p op st i (omega arith) in
      Closed-run ops (step p op st) id k.keeps (omega (arith, k.hi))
        (Closed-step op st id i (omega arith) c)

  -- Neither call is accepted, and neither changes the registry.
  abbrev pub Refused : Store → LaneId → RuntimeState → Option LaneError → Type 0
  Refused st id state e =
      (bind_runtime st id ≡ (st, false)) × (set_runtime p st id state e ≡ (st, false))

  -- A lane that was replaced, or whose state is final, is refused for good: after any further steps of the
  -- registry it can neither bind the session again nor set its state, and the attempt changes nothing.
  pub Closed-Refused :
      (ops : List Op) (st : Store) (id : LaneId) (state : RuntimeState) (e : Option LaneError)
      → Inv p st
      → st.next_rev + length ops < word
      → Closed st id
      → Refused (run p ops st) id state e
  Closed-Refused ops st id state e i w c =
      let c' = Closed-run ops st id i w c in
      (refused-bind (run p ops st) id c', refused-set (run p ops st) id state e c')
