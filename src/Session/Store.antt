-- ===== src/Session/Store.antt =====
-- internal/core/session/store.go: the registry of sessions. Each method runs under the store's lock and is
-- one step. Sessions are values, so that `clone` is the identity. A subscriber's channel is the list of
-- the events that wait in it; the end of its context is the step `unsubscribe`.
pub mod Langs
pub mod Outcomes
pub mod Invariant
pub mod Runs
pub mod Stale
pub mod Refusals
pub mod Updates
pub mod Deletes
mod Tests
use prukka.Base.{
  ℕ, ◌+◌, ◌-◌, ◌%◌, ◌^◌, ◌≤◌, ◌<◌, ◌≡◌, refl, Bool, true, false, not, ◌&&◌, ◌||◌, Option, none,
  some, List, [], ◌∷◌, ◌++◌, map, arith, ltb, leb, ◌==◌, if◌then◌else◌, Text, is_empty, text_eq,
  contains, length,
}
use prukka.Base.Keyed.{find, put, erase, keys}
use prukka.Base.Result.{Result, ok, err}
use prukka.Session.Model.{
  Platform, Failure, not_found, exists, capacity, no_languages, RuntimeState, unset, starting,
  running, finished, failed, RuntimeStatus, Session,
}
use prukka.Session.Flags.{retain}
use prukka.Session.Validate.{validate}
use prukka.Session.Status.{LaneError, valid_runtime_transition, sanitize_runtime_error}

pub data EventType : Type 0 where
  created : EventType
  updated : EventType
  deleted : EventType
  status : EventType

pub record Event : Type 0 where
  pub kind : EventType
  pub session : Session

abbrev pub subscriber_buffer : ℕ
subscriber_buffer = 16

pub record Subscriber : Type 0 where
  pub id : ℕ
  pub pending : List Event

-- `max` is 0 where the registry has no cap.
pub record Store : Type 0 where
  pub sessions : List (Text × Session)
  pub subs : List Subscriber
  pub next_rev : ℕ
  pub next_sub : ℕ
  pub max : ℕ

pub record LaneId : Type 0 where
  pub slug : Text
  pub revision : ℕ
  pub gen : ℕ

unfoldable pub new_store : ℕ → Store
new_store max = record { sessions = []; subs = []; next_rev = 0; next_sub = 0; max = max }

-- A `revision` is a uint64.
abbrev pub word : ℕ
word = 18446744073709551616

abbrev pub next_revision : Store → ℕ
next_revision st = (st.next_rev + 1) % word

abbrev pub send : Event → Subscriber → Subscriber
send e c =
    if ltb (length c.pending) subscriber_buffer
    then record c { pending = c.pending ++ e ∷ [] }
    else c

unfoldable pub notify : EventType → Session → Store → Store
notify kind s st = record st { subs = map (send (record { kind = kind; session = s })) st.subs }

abbrev pub at_start : RuntimeStatus
at_start = record { state = starting; error = []; gen = 0 }

-- A definition as it is stored: with a new revision, and not yet run.
abbrev pub stamped : Session → ℕ → Session
stamped s revision = record s { revision = revision; runtime = at_start }

abbrev pub write : EventType → Session → Store → Store
write kind s st = notify kind s (record st { sessions = put s.slug s st.sessions })

-- The loop of `mergeLangs` over the languages in force and those added.
abbrev pub merge_from : List Text → List Text → List Text → List Text
merge_from drop seen [] = []
merge_from drop seen (l ∷ ls) =
    let rest = merge_from drop (if contains l drop || contains l seen then seen else l ∷ seen) ls in
    if contains l drop || contains l seen then rest else l ∷ rest

unfoldable pub merge_langs : List Text → List Text → List Text → List Text
merge_langs current add remove = merge_from remove [] (current ++ add)

unfoldable pub get : Store → Text → Result Failure Session
get st slug = elim (find slug st.sessions) [ none ↦ err not_found | some s ↦ ok s ]

unfoldable pub count : Store → ℕ
count st = length st.sessions

unfoldable pub bind_runtime : Store → LaneId → Store × Bool
unfolding notify
bind_runtime st id = elim (find id.slug st.sessions) [
  | none ↦ (st, false)
  | some s ↦
      let bound = record s { runtime = record { state = starting; error = []; gen = id.gen } } in
      let quiet = is_starting s.runtime.state && is_empty s.runtime.error in
      let st' = record st { sessions = put id.slug bound st.sessions } in
      if not (s.revision == id.revision) || leb id.gen s.runtime.gen
      then (st, false)
      else (if quiet then (st', true) else (notify status bound st', true))
]
  where
    is_starting : RuntimeState → Bool
    is_starting starting = true
    is_starting unset = false
    is_starting running = false
    is_starting finished = false
    is_starting failed = false

unfoldable pub delete : Store → Text → Result Failure Store
unfolding notify
delete st slug = elim (find slug st.sessions) [
  | none ↦ err not_found
  | some s ↦
      let st' = notify deleted s (record st { sessions = erase slug st.sessions }) in
      elim (find s.pair st'.sessions) [
        | none ↦ ok st'
        | some paired ↦
            if text_eq paired.pair slug
            then ok (notify deleted paired (record st' { sessions = erase s.pair st'.sessions }))
            else ok st'
      ]
]

-- `nextSub` is an int; it counts the calls of `Subscribe`.
unfoldable pub subscribe : Store → Store × ℕ
subscribe st = (
  record st {
    subs = st.subs ++ record { id = st.next_sub; pending = [] } ∷ [];
    next_sub = st.next_sub + 1;
  },
  st.next_sub,
)

abbrev pub without : ℕ → List Subscriber → List Subscriber
without id [] = []
without id (c ∷ cs) = let rest = without id cs in if c.id == id then rest else c ∷ rest

unfoldable pub unsubscribe : ℕ → Store → Store
unsubscribe id st = record st { subs = without id st.subs }

module _ (p : Platform) where
  unfoldable pub create : Store → Session → Result Failure Store
  unfolding notify
  create st s = elim (validate p s) [
    | some e ↦ err e
    | none ↦ elim (find s.slug st.sessions) [
      | some _ ↦ err exists
      | none ↦
          let stored = stamped s (next_revision st) in
          if ltb 0 st.max && leb st.max (length st.sessions)
          then err capacity
          else ok (write created stored (record st { next_rev = next_revision st }))
    ]
  ]

  -- `check` answers the caller's own error, and `none` is the absent or satisfied check.
  unfoldable pub update_langs :
      Store
      → Text
      → List Text
      → List Text
      → (Session → Option Failure)
      → Result Failure (Store × Session)
  unfolding notify
  update_langs st slug add remove check = elim (find slug st.sessions) [
    | none ↦ err not_found
    | some s ↦
        let merged = merge_langs s.langs add remove in
        let candidate = record s { langs = merged; dub_langs = retain merged s.dub_langs } in
        let written = stamped candidate (next_revision st) in
        if is_empty merged then err no_languages else (elim (validate p candidate) [
          | some e ↦ err e
          | none ↦ elim (check candidate) [
            | some e ↦ err e
            | none ↦ ok (
              notify updated written (record st {
                next_rev = next_revision st;
                sessions = put slug written st.sessions;
              }),
              written,
            )
          ]
        ])
  ]

  unfoldable pub set_runtime : Store → LaneId → RuntimeState → Option LaneError → Store × Bool
  unfolding notify
  set_runtime st id state lane_err = elim (find id.slug st.sessions) [
    | none ↦ (st, false)
    | some s ↦
        let next = record s {
          runtime = record s.runtime {
            state = state;
            error = sanitize_runtime_error p.unicode lane_err;
          };
        } in
        if not (s.revision == id.revision)
          || (not (s.runtime.gen == id.gen) || not (valid_runtime_transition s.runtime.state state))
        then (st, false)
        else (notify status next (record st { sessions = put id.slug next st.sessions }), true)
  ]
