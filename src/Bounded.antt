-- ===== src/Bounded.antt =====
-- internal/providers/bounded/bounded.go: the life cycle of a provider behind a shared pool, as the
-- steps of its callers, of the pool that runs the calls, and of the one release.
pub mod Invariant
pub mod Settled
mod Tests
use prukka.Base.{
  ℕ, zero, suc, ◌+◌, ◌≡◌, Bool, true, false, Option, none, some, List, [], ◌∷◌, if◌then◌else◌, Text,
}

-- Where the release stands: not begun, marked closed, closed the provider and waiting, or returned.
pub data Release : Type 0 where
  unreleased marked waiting released : Release

-- `submitting` are the calls that are counted and wait for the pool, `held` those that the pool has taken.
-- `closes` counts the calls of the provider's Close and `answer` is what it returned.
pub record Lifecycle : Type 0 where
  pub closed : Bool
  pub tasks : ℕ
  pub submitting : ℕ
  pub held : ℕ
  pub release : Release
  pub closes : ℕ
  pub answer : Option Text

abbrev pub new_lifecycle : Lifecycle
new_lifecycle = record {
  closed = false;
  tasks = 0;
  submitting = 0;
  held = 0;
  release = unreleased;
  closes = 0;
  answer = none;
}

-- tasks.Done, on the count; `none` is its panic below zero.
unfoldable pub done_from : Lifecycle → ℕ → Option Lifecycle
done_from l zero = none
done_from l (suc n) = some (record l { tasks = n })

unfoldable pub done : Lifecycle → Option Lifecycle
unfolding done_from
done l = done_from l l.tasks

-- submit up to the pool; `none` is ErrClosed.
unfoldable pub begin_call : Lifecycle → Option Lifecycle
begin_call l =
    if l.closed
    then none
    else some (record l { tasks = l.tasks + 1; submitting = l.submitting + 1 })

-- The pool takes the call.
unfoldable pub accept_call : Lifecycle → ℕ → Lifecycle
accept_call l n = record l { submitting = n; held = l.held + 1 }

-- The pool refuses the call.
unfoldable pub refuse_call : Lifecycle → ℕ → Option Lifecycle
unfolding done
refuse_call l n = done (record l { submitting = n })

-- A call ends on a worker.
unfoldable pub end_task : Lifecycle → ℕ → Option Lifecycle
unfolding done
end_task l n = done (record l { held = n })

-- The parts of release, which OnceValue runs for the first caller of close.
unfoldable pub mark_closed : Lifecycle → Lifecycle
mark_closed l = record l { closed = true; release = marked }

unfoldable pub close_next : Lifecycle → Option Text → Lifecycle
close_next l answer = record l { closes = l.closes + 1; answer = answer; release = waiting }

unfoldable pub end_release : Lifecycle → Lifecycle
end_release l = record l { release = released }

pub data Step (l : Lifecycle) : Lifecycle → Type 0 where
  beginning : (m : Lifecycle) → begin_call l ≡ some m → Step l m
  accepting : (n : ℕ) → l.submitting ≡ suc n → Step l (accept_call l n)
  refusing : (n : ℕ) (m : Lifecycle) → l.submitting ≡ suc n → refuse_call l n ≡ some m → Step l m
  ending : (n : ℕ) (m : Lifecycle) → l.held ≡ suc n → end_task l n ≡ some m → Step l m
  marking : l.release ≡ unreleased → Step l (mark_closed l)
  closing : (answer : Option Text) → l.release ≡ marked → Step l (close_next l answer)
  returning : l.release ≡ waiting → l.tasks ≡ 0 → Step l (end_release l)

pub data Reaches (start : Lifecycle) : Lifecycle → Type 0 where
  here : Reaches start start
  next : {l m : Lifecycle} → Reaches start l → Step l m → Reaches start m
