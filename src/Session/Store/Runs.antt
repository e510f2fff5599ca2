-- ===== src/Session/Store/Runs.antt =====
-- Interleavings of the methods of internal/core/session/store.go, each under the store's lock, and of the
-- receives of its subscribers. A method that fails leaves the store as it was.
use prukka.Base.{
  ℕ, ◌+◌, ◌≤◌, ◌<◌, ◌≡◌, ap, Option, List, [], ◌∷◌, inl, inr, arith, ◌==◌, if◌then◌else◌, Text,
  length, if-either, All, All-append,
}
use prukka.Base.Result.{ok, err, Result-cases}
use prukka.Session.Model.{Platform, Failure, RuntimeState, Session}
use prukka.Session.Status.{LaneError}
use prukka.Session.Store.{
  Event, Subscriber, Store, LaneId, word, next_revision, notify, create, update_langs, bind_runtime,
  set_runtime, delete, subscribe, without, unsubscribe,
}
use prukka.Session.Store.Outcomes.{
  create-ok, update_langs-ok, delete-ok, bind_runtime-cases, set_runtime-cases,
}
use prukka.Session.Store.Invariant.{
  HasRoom, Inv, CanStamp, next_revision-lem, create-Inv, update_langs-Inv, bind_runtime-Inv,
  set_runtime-Inv, delete-Inv,
}

pub data Op : Type 0 where
  creates : Session → Op
  updates : Text → List Text → List Text → (Session → Option Failure) → Op
  binds : LaneId → Op
  sets : LaneId → RuntimeState → Option LaneError → Op
  deletes : Text → Op
  subscribes : Op
  unsubscribes : ℕ → Op
  receives : ℕ → Op

-- A receive takes the first event that waits, if any does.
abbrev pub after_first : List Event → List Event
after_first [] = []
after_first (e ∷ es) = es

abbrev pub received : ℕ → List Subscriber → List Subscriber
received id [] = []
received id (c ∷ cs) =
    (if c.id == id then record c { pending = after_first c.pending } else c) ∷ received id cs

module _ (p : Platform) where
  unfoldable pub step : Op → Store → Store
  step (creates s) st = elim (create p st s) [ ok st' ↦ st' | err _ ↦ st ]
  step (updates slug add remove check) st = elim (update_langs p st slug add remove check) [
    | ok r ↦ r.0
    | err _ ↦ st
  ]
  step (binds id) st = (bind_runtime st id).0
  step (sets id state e) st = (set_runtime p st id state e).0
  step (deletes slug) st = elim (delete st slug) [ ok st' ↦ st' | err _ ↦ st ]
  step subscribes st = (subscribe st).0
  step (unsubscribes id) st = unsubscribe id st
  step (receives id) st = record st { subs = received id st.subs }

  unfoldable pub run : List Op → Store → Store
  unfolding step
  run [] st = st
  run (op ∷ ops) st = run ops (step op st)

  HasRoom-after_first : (es : List Event) → length (after_first es) ≤ length es
  HasRoom-after_first [] = omega arith
  HasRoom-after_first (e ∷ es) = omega arith

  All-received : (id : ℕ) (cs : List Subscriber) → All HasRoom cs → All HasRoom (received id cs)
  All-received id [] h = tt
  All-received id (c ∷ cs) h = (
    if-either HasRoom (c.id == id) _ _ (omega (arith, h.0, HasRoom-after_first c.pending)) h.0,
    All-received id cs h.1,
  )

  All-without : (id : ℕ) (cs : List Subscriber) → All HasRoom cs → All HasRoom (without id cs)
  All-without id [] h = tt
  All-without id (c ∷ cs) h =
      if-either (All HasRoom) (c.id == id) _ _ (All-without id cs h.1) (h.0, All-without id cs h.1)

  -- A step keeps the invariant and hands out one revision at most.
  pub record Steps (st st' : Store) : Type 0 where
    pub keeps : Inv p st'
    pub lo : st.next_rev ≤ st'.next_rev
    pub hi : st'.next_rev ≤ st.next_rev + 1

  pub step-Steps : (op : Op) (st : Store) → Inv p st → CanStamp p st → Steps st (step op st)
  unfolding step notify subscribe unsubscribe
  step-Steps (creates s) st i w = elim (Result-cases (create p st s)) [
    | inl (st', e) ↦
        let c = create-ok p st st' s e in
        let n : next_revision st ≡ st'.next_rev = ap (λ x. x.next_rev) c.left in
        rw (e, step)
          (record {
            keeps = create-Inv p st st' s i w e;
            lo = omega (arith, n, next_revision-lem p st w);
            hi = omega (arith, n, next_revision-lem p st w);
          })
    | inr (x, e) ↦ rw (e, step) (record { keeps = i; lo = omega arith; hi = omega arith })
  ]
  step-Steps (updates slug add remove check) st i w =
      elim (Result-cases (update_langs p st slug add remove check)) [
        | inl (r, e) ↦
            let u = update_langs-ok p st r.0 slug add remove check r.1 e in
            let n : next_revision st ≡ r.0.next_rev = ap (λ x. x.next_rev) u.left in
            rw (e, step)
              (record {
                keeps = update_langs-Inv p st r.0 slug add remove check r.1 i w e;
                lo = omega (arith, n, next_revision-lem p st w);
                hi = omega (arith, n, next_revision-lem p st w);
              })
        | inr (x, e) ↦ rw (e, step) (record { keeps = i; lo = omega arith; hi = omega arith })
      ]
  step-Steps (binds id) st i w = elim (bind_runtime-cases st id) [
    | inl e ↦ rw (e, step) (record { keeps = i; lo = omega arith; hi = omega arith })
    | inr (e, b) ↦ record {
      keeps = bind_runtime-Inv p st id i;
      lo = omega (arith, b.next_rev);
      hi = omega (arith, b.next_rev);
    }
  ]
  step-Steps (sets id state e) st i w = elim (set_runtime-cases p st id state e) [
    | inl g ↦ rw (g, step) (record { keeps = i; lo = omega arith; hi = omega arith })
    | inr (g, b) ↦ record {
      keeps = set_runtime-Inv p st id state e i;
      lo = omega (arith, b.next_rev);
      hi = omega (arith, b.next_rev);
    }
  ]
  step-Steps (deletes slug) st i w = elim (Result-cases (delete st slug)) [
    | inl (st', e) ↦
        let n : st.next_rev ≡ st'.next_rev = elim (delete-ok st st' slug e).left [
          | inl (l, _) ↦ ap (λ x. x.next_rev) l
          | inr (paired, f, r, l) ↦ ap (λ x. x.next_rev) l
        ] in
        rw (e, step)
          (record {
            keeps = delete-Inv p st st' slug i e;
            lo = omega (arith, n);
            hi = omega (arith, n);
          })
    | inr (x, e) ↦ rw (e, step) (record { keeps = i; lo = omega arith; hi = omega arith })
  ]
  step-Steps subscribes st i w = record {
    keeps = record {
      distinct = i.distinct;
      entries = i.entries;
      capped = i.capped;
      buffers =
          All-append HasRoom st.subs (record { id = st.next_sub; pending = [] } ∷ []) i.buffers
            (omega arith, tt);
    };
    lo = omega arith;
    hi = omega arith;
  }
  step-Steps (unsubscribes id) st i w = record {
    keeps = record {
      distinct = i.distinct;
      entries = i.entries;
      capped = i.capped;
      buffers = All-without id st.subs i.buffers;
    };
    lo = omega arith;
    hi = omega arith;
  }
  step-Steps (receives id) st i w = record {
    keeps = record {
      distinct = i.distinct;
      entries = i.entries;
      capped = i.capped;
      buffers = All-received id st.subs i.buffers;
    };
    lo = omega arith;
    hi = omega arith;
  }

  -- Whatever the store's methods and subscribers do in whatever order, as long as revisions last: slugs
  -- stay distinct, every session is valid and stands under its slug, the cap holds, and no subscriber has
  -- more events waiting than its buffer takes.
  pub run-Inv :
      (ops : List Op) (st : Store) → Inv p st → st.next_rev + length ops < word → Inv p (run ops st)
  unfolding run
  run-Inv [] st i w = i
  run-Inv (op ∷ ops) st i w =
      let k = step-Steps op st i (omega arith) in
      run-Inv ops (step op st) k.keeps (omega (arith, k.hi))
