-- ===== src/Session/Store/Invariant.antt =====
-- The invariant of the registry of internal/core/session/store.go, and that each of its methods keeps it.
use prukka.Base.{
  ℕ, ◌+◌, ◌≤◌, ◌<◌, ◌≡◌, refl, subst, ◌∙◌, Bool, false, Option, none, some, List, [], ◌∷◌, map, inl,
  inr, arith, Text, length, length-append, Option-cases, if-either, All,
}
use prukka.Base.Distinct.{IsDistinct}
use prukka.Base.Keyed.{
  find, put, erase, keys, IsDistinct-put, IsDistinct-erase, length-put, length-erase-le, All-put,
  All-erase, All-find,
}
use prukka.Base.Result.{ok}
use prukka.Session.Model.{Platform, Failure, RuntimeState, starting, RuntimeStatus, Session}
use prukka.Session.Validate.{
  validate, validate_identity, validate_limits, validate_languages, validate_media, validate_modes,
  validate_pair,
}
use prukka.Session.Status.{LaneError, sanitize_runtime_error}
use prukka.Session.Store.Outcomes.{create-ok, update_langs-ok, delete-ok, candidate, erased}
use prukka.Session.Store.{
  EventType, Event, created, updated, deleted, status, subscriber_buffer, Subscriber, Store, LaneId,
  word, next_revision, send, notify, stamped, create, update_langs, bind_runtime, set_runtime,
  delete,
}

abbrev pub HasRoom : Subscriber → Type 0
HasRoom c = length c.pending ≤ subscriber_buffer

module _ (p : Platform) where
  -- A session stands under its slug, is valid, and its revision was handed out.
  pub record IsEntry (next : ℕ) (e : Text × Session) : Type 0 where
    pub slug : e.1.slug ≡ e.0
    pub valid : validate p e.1 ≡ none
    pub stamped : e.1.revision ≤ next

  pub record Inv (st : Store) : Type 0 where
    pub distinct : IsDistinct (keys st.sessions)
    pub entries : All (IsEntry st.next_rev) st.sessions
    pub capped : 0 < st.max → length st.sessions ≤ st.max
    pub buffers : All HasRoom st.subs

  -- Revisions have not run out: a uint64 that wraps would be reused.
  abbrev pub CanStamp : Store → Type 0
  CanStamp st = st.next_rev + 1 < word

  All-send : (e : Event) (cs : List Subscriber) → All HasRoom cs → All HasRoom (map (send e) cs)
  All-send e [] h = tt
  All-send e (c ∷ cs) h = (ground (arith, length-append c.pending (e ∷ []), h.0), All-send e cs h.1)

  pub notify-Inv : (kind : EventType) (s : Session) (st : Store) → Inv st → Inv (notify kind s st)
  unfolding notify
  notify-Inv kind s st i = record {
    distinct = i.distinct;
    entries = i.entries;
    capped = i.capped;
    buffers = All-send (record { kind = kind; session = s }) st.subs i.buffers;
  }

  later-IsEntry :
      (next later : ℕ) (m : List (Text × Session))
      → next ≤ later
      → All (IsEntry next) m
      → All (IsEntry later) m
  later-IsEntry next later [] h a = tt
  later-IsEntry next later (e ∷ m) h a = (
    record { slug = a.0.slug; valid = a.0.valid; stamped = omega (arith, a.0.stamped) },
    later-IsEntry next later m h a.1,
  )

  pub next_revision-lem : (st : Store) → CanStamp st → next_revision st ≡ st.next_rev + 1
  next_revision-lem st h = omega arith

  -- A session that is stored is overwritten by one that is an entry.
  put-Inv :
      (st : Store) (slug : Text) (old s : Session) (next : ℕ)
      → Inv st
      → find slug st.sessions ≡ some old
      → IsEntry next (slug, s)
      → st.next_rev ≤ next
      → Inv (record st { next_rev = next; sessions = put slug s st.sessions })
  put-Inv st slug old s next i f e h = record {
    distinct = IsDistinct-put slug s st.sessions i.distinct;
    entries =
        All-put (IsEntry next) slug s st.sessions
          (later-IsEntry st.next_rev next st.sessions h i.entries) e;
    capped = λ c. omega (arith, i.capped c, (length-put slug s st.sessions).0 old f);
    buffers = i.buffers;
  }

  erase-Inv :
      (st : Store) (slug : Text) → Inv st → Inv (record st { sessions = erase slug st.sessions })
  erase-Inv st slug i = record {
    distinct = IsDistinct-erase slug st.sessions i.distinct;
    entries = All-erase (IsEntry st.next_rev) slug st.sessions i.entries;
    capped = λ c. omega (arith, i.capped c, length-erase-le slug st.sessions);
    buffers = i.buffers;
  }

  -- The checks read neither the revision nor what was observed.
  validate-stamped : (s : Session) (r : ℕ) → validate p (stamped s r) ≡ validate p s
  unfolding validate validate_identity validate_limits validate_languages validate_media
      validate_modes validate_pair
  validate-stamped s r = refl

  pub create-Inv :
      (st st' : Store) (s : Session) → Inv st → CanStamp st → create p st s ≡ ok st' → Inv st'
  create-Inv st st' s i w h =
      let c = create-ok p st st' s h in
      let stored = stamped s (next_revision st) in
      let n = next_revision-lem st w in
      subst Inv c.left (
        notify-Inv created stored
          (record st { next_rev = next_revision st; sessions = put s.slug stored st.sessions })
          (record {
            distinct = IsDistinct-put s.slug stored st.sessions i.distinct;
            entries =
                All-put (IsEntry (next_revision st)) s.slug stored st.sessions
                  (later-IsEntry st.next_rev (next_revision st) st.sessions (omega (arith, n))
                    i.entries)
                  (record {
                    slug = refl;
                    valid = validate-stamped s (next_revision st) ∙ c.valid;
                    stamped = omega arith;
                  });
            capped = λ k. ground (arith, (length-put s.slug stored st.sessions).1 c.absent, c.room);
            buffers = i.buffers;
          }))

  pub update_langs-Inv :
      (st st' : Store) (slug : Text) (add remove : List Text) (check : Session → Option Failure)
      (s' : Session)
      → Inv st
      → CanStamp st
      → update_langs p st slug add remove check ≡ ok (st', s')
      → Inv st'
  update_langs-Inv st st' slug add remove check s' i w h =
      let u = update_langs-ok p st st' slug add remove check s' h in
      let c = candidate u.session add remove in
      let written = stamped c (next_revision st) in
      let at_slug = All-find (IsEntry st.next_rev) slug u.session st.sessions i.entries u.found in
      subst Inv u.left (
        notify-Inv updated written
          (record st { next_rev = next_revision st; sessions = put slug written st.sessions })
          (put-Inv st slug u.session written (next_revision st) i u.found
            (record {
              slug = at_slug.slug;
              valid = validate-stamped c (next_revision st) ∙ u.valid;
              stamped = omega arith;
            })
            (omega (arith, next_revision-lem st w))))

  -- A write of what was observed keeps the definition, and so its validity.
  validate-observed :
      (s : Session) (r : RuntimeStatus) → validate p (record s { runtime = r }) ≡ validate p s
  unfolding validate validate_identity validate_limits validate_languages validate_media
      validate_modes validate_pair
  validate-observed s r = refl

  observed-Inv :
      (st : Store) (slug : Text) (s : Session) (r : RuntimeStatus)
      → Inv st
      → find slug st.sessions ≡ some s
      → Inv (record st { sessions = put slug (record s { runtime = r }) st.sessions })
  observed-Inv st slug s r i f =
      let e = All-find (IsEntry st.next_rev) slug s st.sessions i.entries f in
      put-Inv st slug s (record s { runtime = r }) st.next_rev i f
        (record { slug = e.slug; valid = validate-observed s r ∙ e.valid; stamped = e.stamped })
        (omega arith)

  abbrev KeepsInv : Store × Bool → Type 0
  KeepsInv o = Inv o.0

  pub bind_runtime-Inv : (st : Store) (id : LaneId) → Inv st → Inv (bind_runtime st id).0
  unfolding bind_runtime
  bind_runtime-Inv st id i = elim (Option-cases (find id.slug st.sessions)) [
    | inl f ↦ rw (f, bind_runtime) i
    | inr (s, f) ↦
        let r : RuntimeStatus = record { state = starting; error = []; gen = id.gen } in
        let bound = record s { runtime = r } in
        let k = observed-Inv st id.slug s r i f in
        let k' =
          notify-Inv status bound (record st { sessions = put id.slug bound st.sessions }) k in
        rw (f, bind_runtime) (if-either KeepsInv _ (st, false) _ i (if-either KeepsInv _ _ _ k k'))
  ]

  pub set_runtime-Inv :
      (st : Store) (id : LaneId) (state : RuntimeState) (e : Option LaneError)
      → Inv st
      → Inv (set_runtime p st id state e).0
  unfolding set_runtime
  set_runtime-Inv st id state e i = elim (Option-cases (find id.slug st.sessions)) [
    | inl f ↦ rw (f, set_runtime) i
    | inr (s, f) ↦
        let r = record s.runtime { state = state; error = sanitize_runtime_error p.unicode e } in
        let next = record s { runtime = r } in
        let k = observed-Inv st id.slug s r i f in
        let k' = notify-Inv status next (record st { sessions = put id.slug next st.sessions }) k in
        rw (f, set_runtime) (if-either KeepsInv _ (st, false) _ i k')
  ]

  erased-Inv : (st : Store) (slug : Text) (s : Session) → Inv st → Inv (erased st slug s)
  erased-Inv st slug s i =
      notify-Inv deleted s (record st { sessions = erase slug st.sessions }) (erase-Inv st slug i)

  pub delete-Inv : (st st' : Store) (slug : Text) → Inv st → delete st slug ≡ ok st' → Inv st'
  delete-Inv st st' slug i h =
      let d = delete-ok st st' slug h in
      let k = erased-Inv st slug d.session i in
      elim d.left [
        | inl (e, _) ↦ subst Inv e k
        | inr (paired, g, r, e) ↦
            subst Inv e (erased-Inv (erased st slug d.session) d.session.pair paired k)
      ]
