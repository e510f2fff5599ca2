-- ===== src/Session/Store/Outcomes.antt =====
-- What each method of the registry has checked when it succeeds, and the store that it leaves.
use prukka.Base.{
  ◌<◌, ◌≡◌, refl, ap, subst, Bool, true, false, not, ◌&&◌, ◌||◌, Option, none, some, List, [], ◌⊎◌,
  inl, inr, arith, ltb, leb, ◌==◌, Text, text_eq, length, Bool-cases, Option-cases, if-either,
  is_empty,
}
use prukka.Base.Keyed.{find, put, erase}
use prukka.Base.Result.{ok, ok-inj}
use prukka.Session.Model.{Platform, Failure, RuntimeState, starting, Session}
use prukka.Session.Flags.{retain}
use prukka.Session.Validate.{validate}
use prukka.Session.Status.{LaneError, sanitize_runtime_error, valid_runtime_transition}
use prukka.Session.Store.{
  created, updated, deleted, status, Store, LaneId, next_revision, notify, stamped, merge_langs,
  create, update_langs, bind_runtime, set_runtime, delete,
}

abbrev pub created_store : Store → Session → Store
created_store st s = notify created (stamped s (next_revision st)) (record st {
  next_rev = next_revision st;
  sessions = put s.slug (stamped s (next_revision st)) st.sessions;
})

abbrev pub candidate : Session → List Text → List Text → Session
candidate s add remove =
    let merged = merge_langs s.langs add remove in
    record s { langs = merged; dub_langs = retain merged s.dub_langs }

abbrev pub updated_store : Store → Text → Session → Store
updated_store st slug written =
    notify updated written
      (record st { next_rev = next_revision st; sessions = put slug written st.sessions })

abbrev pub bound : Session → LaneId → Session
bound s id = record s { runtime = record { state = starting; error = []; gen = id.gen } }

abbrev pub erased : Store → Text → Session → Store
erased st slug s = notify deleted s (record st { sessions = erase slug st.sessions })

pub record BindsTo (st : Store) (id : LaneId) (st' : Store) : Type 0 where
  pub session : Session
  pub found : find id.slug st.sessions ≡ some session
  pub current : session.revision ≡ id.revision
  pub newer : session.runtime.gen < id.gen
  pub sessions : st'.sessions ≡ put id.slug (bound session id) st.sessions
  pub next_rev : st'.next_rev ≡ st.next_rev

abbrev bound_store : Store → LaneId → Session → Store
bound_store st id s = record st { sessions = put id.slug (bound s id) st.sessions }

abbrev Bound : Store → LaneId → Store × Bool → Type 0
Bound st id o = (o.1 ≡ true) × BindsTo st id o.0

renotified :
    (st : Store) (id : LaneId) (s : Session)
    → BindsTo st id (bound_store st id s)
    → BindsTo st id (notify status (bound s id) (bound_store st id s))
unfolding notify
renotified st id s b = record {
  session = b.session;
  found = b.found;
  current = b.current;
  newer = b.newer;
  sessions = b.sessions;
  next_rev = b.next_rev;
}

pub bind_runtime-cases :
    (st : Store) (id : LaneId)
    → (bind_runtime st id ≡ (st, false))
      ⊎ ((bind_runtime st id).1 ≡ true) × BindsTo st id (bind_runtime st id).0
unfolding bind_runtime notify
bind_runtime-cases st id = elim (Option-cases (find id.slug st.sessions)) [
  | inl f ↦ inl (rw (f, bind_runtime) refl)
  | inr (s, f) ↦ elim (Bool-cases (not (s.revision == id.revision) || leb id.gen s.runtime.gen)) [
    | inl e ↦ inl (rw (f, e, bind_runtime) refl)
    | inr e ↦
        let b : BindsTo st id (bound_store st id s) = record {
          session = s;
          found = f;
          current = ground arith;
          newer = ground arith;
          sessions = refl;
          next_rev = refl;
        } in
        inr (
          rw (f, e, bind_runtime)
            (if-either (Bound st id) _ _ _ (refl, b) (refl, renotified st id s b)))
  ]
]

pub record Deletes (st : Store) (slug : Text) (st' : Store) : Type 0 where
  pub session : Session
  pub found : find slug st.sessions ≡ some session
  pub left :
      ((erased st slug session ≡ st')
        × ((t : Session)
            → find session.pair (erase slug st.sessions) ≡ some t
            → text_eq t.pair slug ≡ false))
      ⊎ ((paired : Session) × (find session.pair (erase slug st.sessions) ≡ some paired)
          × (text_eq paired.pair slug ≡ true)
          × (erased (erased st slug session) session.pair paired ≡ st'))

pub same_session : {o : Option Session} {s t : Session} → o ≡ some s → o ≡ some t → s ≡ t
same_session h k = cc (h, k)

pub delete-ok : (st st' : Store) (slug : Text) → delete st slug ≡ ok st' → Deletes st slug st'
unfolding delete notify
delete-ok st st' slug h = elim (Option-cases (find slug st.sessions)) [
  | inl f ↦ absurd (ground arith)
  | inr (s, f) ↦
      let gone = erased st slug s in
      elim (Option-cases (find s.pair (erase slug st.sessions))) [
        | inl g ↦ record {
          session = s;
          found = f;
          left =
              inl (
                ok-inj {a = gone} {r = delete st slug} (rw (f, g, delete) refl) h,
                λ t q. cc (g, q),
              );
        }
        | inr (paired, g) ↦ elim (Bool-cases (text_eq paired.pair slug)) [
          | inr e ↦ record {
            session = s;
            found = f;
            left = inl (
              ok-inj {a = gone} {r = delete st slug} (rw (f, g, e, delete) refl) h,
              λ t q. subst (λ z. text_eq z.pair slug ≡ false) (same_session g q) e,
            );
          }
          | inl e ↦ record {
            session = s;
            found = f;
            left = inr (
              paired,
              g,
              e,
              ok-inj {a = erased gone s.pair paired} {r = delete st slug}
                  (rw (f, g, e, delete) refl) h,
            );
          }
        ]
      ]
]

module _ (p : Platform) where
  pub record Creates (st : Store) (s : Session) (st' : Store) : Type 0 where
    pub valid : validate p s ≡ none
    pub absent : find s.slug st.sessions ≡ none
    pub room : (ltb 0 st.max && leb st.max (length st.sessions)) ≡ false
    pub left : created_store st s ≡ st'

  pub create-ok : (st st' : Store) (s : Session) → create p st s ≡ ok st' → Creates st s st'
  unfolding create
  create-ok st st' s h = elim (Option-cases (validate p s)) [
    | inr (e, v) ↦ absurd (ground arith)
    | inl v ↦ elim (Option-cases (find s.slug st.sessions)) [
      | inr (old, f) ↦ absurd (ground arith)
      | inl f ↦ elim (Bool-cases (ltb 0 st.max && leb st.max (length st.sessions))) [
        | inl full ↦ absurd (ground arith)
        | inr room ↦ record {
          valid = v;
          absent = f;
          room = room;
          left =
              ok-inj {a = created_store st s} {r = create p st s} (rw (v, f, room, create) refl) h;
        }
      ]
    ]
  ]

  pub record Updates (st : Store) (slug : Text) (add remove : List Text) (st' : Store)
      (s' : Session) : Type 0 where
    pub session : Session
    pub found : find slug st.sessions ≡ some session
    pub valid : validate p (candidate session add remove) ≡ none
    pub left :
        updated_store st slug (stamped (candidate session add remove) (next_revision st)) ≡ st'
    pub answer : stamped (candidate session add remove) (next_revision st) ≡ s'

  pub update_langs-ok :
      (st st' : Store) (slug : Text) (add remove : List Text) (check : Session → Option Failure)
      (s' : Session)
      → update_langs p st slug add remove check ≡ ok (st', s')
      → Updates st slug add remove st' s'
  unfolding update_langs
  update_langs-ok st st' slug add remove check s' h = elim (Option-cases (find slug st.sessions)) [
    | inl f ↦ absurd (ground arith)
    | inr (s, f) ↦
        let c = candidate s add remove in
        let written = stamped c (next_revision st) in
        elim (Bool-cases (is_empty (merge_langs s.langs add remove))) [
          | inl e ↦ absurd (ground arith)
          | inr e ↦ elim (Option-cases (validate p c)) [
            | inr (x, v) ↦ absurd (ground arith)
            | inl v ↦ elim (Option-cases (check c)) [
              | inr (x, k) ↦ absurd (ground arith)
              | inl k ↦
                  let built : (updated_store st slug written, written) ≡ (st', s') =
                    ok-inj {r = update_langs p st slug add remove check}
                      (rw (f, e, v, k, update_langs) refl) h in
                  record {
                    session = s;
                    found = f;
                    valid = v;
                    left = ap (λ r. r.0) built;
                    answer = ap (λ r. r.1) built;
                  }
            ]
          ]
        ]
  ]

  pub record SetsTo (st : Store) (id : LaneId) (state : RuntimeState) (st' : Store) : Type 0 where
    pub session : Session
    pub found : find id.slug st.sessions ≡ some session
    pub current : session.revision ≡ id.revision
    pub owned : session.runtime.gen ≡ id.gen
    pub allowed : valid_runtime_transition session.runtime.state state ≡ true
    pub error : Text
    pub sessions :
        st'.sessions
        ≡ put id.slug
            (record session { runtime = record session.runtime { state = state; error = error } })
            st.sessions
    pub next_rev : st'.next_rev ≡ st.next_rev

  pub set_runtime-cases :
      (st : Store) (id : LaneId) (state : RuntimeState) (e : Option LaneError)
      → (set_runtime p st id state e ≡ (st, false))
        ⊎ ((set_runtime p st id state e).1 ≡ true)
          × SetsTo st id state (set_runtime p st id state e).0
  unfolding set_runtime notify
  set_runtime-cases st id state e = elim (Option-cases (find id.slug st.sessions)) [
    | inl f ↦ inl (rw (f, set_runtime) refl)
    | inr (s, f) ↦
        elim (Bool-cases (
          not (s.revision == id.revision)
          || (not (s.runtime.gen == id.gen)
              || not (valid_runtime_transition s.runtime.state state)))) [
                | inl g ↦ inl (rw (f, g, set_runtime) refl)
                | inr g ↦ inr (
                  rw (f, g, set_runtime) refl,
                  record {
                    session = s;
                    found = f;
                    current = ground arith;
                    owned = ground arith;
                    allowed = ground arith;
                    error = sanitize_runtime_error p.unicode e;
                    sessions = rw (f, g, set_runtime) refl;
                    next_rev = rw (f, g, set_runtime) refl;
                  },
                )
              ]
  ]
