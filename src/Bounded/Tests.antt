-- ===== src/Bounded/Tests.antt =====
-- internal/providers/bounded/bounded.go: a call that ends after the release has begun.
use prukka.Base.{◌≡◌, ◌<◌, refl, true, some, none, codes}
use prukka.Bounded.{
  Lifecycle, new_lifecycle, begin_call, accept_call, end_task, mark_closed, close_next, end_release,
  released, waiting, Step, beginning, accepting, ending, marking, closing, returning, Reaches, here,
  next,
}
use prukka.Bounded.Settled.{IsSettled, left, Reaches-IsSettled, Reaches-Returns}

abbrev called : Lifecycle
called = record new_lifecycle { tasks = 1; submitting = 1 }

abbrev closing_down : Lifecycle
closing_down = record new_lifecycle {
  tasks = 1;
  held = 1;
  closed = true;
  release = waiting;
  closes = 1;
  answer = some (codes "gone");
}

abbrev gone : Lifecycle
gone = record closing_down { tasks = 0; held = 0; release = released }

to_closing : Reaches new_lifecycle closing_down
unfolding begin_call accept_call mark_closed close_next
to_closing =
    next (next (next (next here (beginning called refl)) (accepting 0 refl)) (marking refl))
      (closing (some (codes "gone")) refl)

to_gone : Reaches new_lifecycle gone
unfolding end_task end_release
to_gone =
    next (next to_closing (ending 0 (record closing_down { tasks = 0; held = 0 }) refl refl))
      (returning refl refl)

refuses_more : begin_call closing_down ≡ none
unfolding begin_call
refuses_more = refl

Reaches-IsSettled_example : IsSettled gone × ((m : Lifecycle) → Reaches gone m → m ≡ gone)
Reaches-IsSettled_example = Reaches-IsSettled to_gone refl

Reaches-Returns_example :
    ((m : Lifecycle) × Reaches closing_down m × (m.release ≡ released))
    × ((m : Lifecycle) → Step closing_down m → left m < left closing_down)
Reaches-Returns_example = Reaches-Returns to_closing refl
