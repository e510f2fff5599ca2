-- ===== src/Bounded/Invariant.antt =====
-- internal/providers/bounded/bounded.go: the tasks that are counted, and how far the release has gone.
use prukka.Base.{
  none-some, some-inj, if_false, ℕ, zero, suc, ◌+◌, ◌≡◌, refl, sym, subst, ◌∙◌, Bool, true, false,
  Option, none, some, Bool-cases, inl, inr, arith, Text,
}
use prukka.Bounded.{
  Release, unreleased, marked, waiting, released, Lifecycle, new_lifecycle, done_from, done,
  begin_call, accept_call, refuse_call, end_task, mark_closed, close_next, end_release, Step,
  beginning, accepting, refusing, ending, marking, closing, returning, Reaches, here, next,
}

-- What the release has done so far.
abbrev pub Stage : Release → Bool → ℕ → ℕ → Type 0
Stage unreleased closed closes tasks = (closed ≡ false) × (closes ≡ 0)
Stage marked closed closes tasks = (closed ≡ true) × (closes ≡ 0)
Stage waiting closed closes tasks = (closed ≡ true) × (closes ≡ 1)
Stage released closed closes tasks = (closed ≡ true) × (closes ≡ 1) × (tasks ≡ 0)

pub record Inv (l : Lifecycle) : Type 0 where
  pub balance : l.tasks ≡ l.submitting + l.held
  pub stage : Stage l.release l.closed l.closes l.tasks

-- Calls that go on do not touch the release, nor does it hold any back.
Stage-tasks :
    (r : Release) (closed : Bool) (closes tasks tasks' : ℕ)
    → Stage r closed closes tasks
    → (tasks ≡ 0 → tasks' ≡ 0)
    → Stage r closed closes tasks'
Stage-tasks unreleased closed closes tasks tasks' s h = s
Stage-tasks marked closed closes tasks tasks' s h = s
Stage-tasks waiting closed closes tasks tasks' s h = s
Stage-tasks released closed closes tasks tasks' s h = (s.0, s.1, h s.2)

Stage-open :
    (r : Release) (closed : Bool) (closes tasks tasks' : ℕ)
    → Stage r closed closes tasks
    → closed ≡ false
    → Stage r closed closes tasks'
Stage-open unreleased closed closes tasks tasks' s o = s
Stage-open marked closed closes tasks tasks' s o = s
Stage-open waiting closed closes tasks tasks' s o = s
Stage-open released closed closes tasks tasks' s o = cc

-- A task that is counted can be taken off the count.
pub done-some :
    (l m : Lifecycle) → done l ≡ some m → (n : ℕ) × (l.tasks ≡ suc n) × (m ≡ record l { tasks = n })
unfolding done
done-some l m e = counted l.tasks refl e
  where
    counted :
        (k : ℕ)
        → l.tasks ≡ k
        → done_from l k ≡ some m
        → (n : ℕ) × (l.tasks ≡ suc n) × (m ≡ record l { tasks = n })
    counted zero k e' = absurd (none-some (unfold done_from in e'))
    counted (suc n) k e' = (n, k, sym (some-inj (unfold done_from in e')))

pub begin_call-some :
    (l m : Lifecycle)
    → begin_call l ≡ some m
    → (l.closed ≡ false) × (m ≡ record l { tasks = l.tasks + 1; submitting = l.submitting + 1 })
unfolding begin_call
begin_call-some l m e = elim (Bool-cases l.closed) [
  | inl c ↦ absurd (none-some (rw (c, begin_call) at e))
  | inr c ↦ (c, sym (some-inj (if_false l.closed c none (some begun) ∙ e)))
]
  where
    begun : Lifecycle
    begun = record l { tasks = l.tasks + 1; submitting = l.submitting + 1 }

begin_call-Inv : (l m : Lifecycle) → begin_call l ≡ some m → Inv l → Inv m
begin_call-Inv l m e i =
    let (open_, q) = begin_call-some l m e in
    subst Inv (sym q) (record {
      balance = omega (arith, i.balance);
      stage = Stage-open l.release l.closed l.closes l.tasks (l.tasks + 1) i.stage open_;
    })

-- What a call that leaves does to the counts, by the submitter or by a worker.
leave-Inv :
    (l m : Lifecycle) (submitting held : ℕ)
    → done (record l { submitting = submitting; held = held }) ≡ some m
    → l.submitting + l.held ≡ suc (submitting + held)
    → Inv l
    → Inv m
leave-Inv l m submitting held e left i =
    let (n, k, q) = done-some (record l { submitting = submitting; held = held }) m e in
    subst Inv (sym q) (record {
      balance = omega (arith, i.balance, k, left);
      stage =
          Stage-tasks l.release l.closed l.closes l.tasks n i.stage
            (λ z. absurd (omega (arith, z, k)));
    })

mark_closed-Inv : (l : Lifecycle) → l.release ≡ unreleased → Inv l → Inv (mark_closed l)
unfolding mark_closed
mark_closed-Inv l r i = record {
  balance = i.balance;
  stage = (refl, (subst (λ k. Stage k l.closed l.closes l.tasks) r i.stage).1);
}

close_next-Inv :
    (l : Lifecycle) (answer : Option Text) → l.release ≡ marked → Inv l → Inv (close_next l answer)
unfolding close_next
close_next-Inv l answer r i =
    let s = subst (λ k. Stage k l.closed l.closes l.tasks) r i.stage in
    record { balance = i.balance; stage = (s.0, omega (arith, s.1)) }

end_release-Inv : (l : Lifecycle) → l.release ≡ waiting → l.tasks ≡ 0 → Inv l → Inv (end_release l)
unfolding end_release
end_release-Inv l r z i =
    let s = subst (λ k. Stage k l.closed l.closes l.tasks) r i.stage in
    record { balance = i.balance; stage = (s.0, s.1, z) }

pub Step-Inv : {l m : Lifecycle} → Step l m → Inv l → Inv m
unfolding accept_call refuse_call end_task
Step-Inv {l} (beginning m e) i = begin_call-Inv l m e i
Step-Inv (accepting n s) i = record { balance = omega (arith, i.balance); stage = i.stage }
Step-Inv {l} (refusing n m s e) i = leave-Inv l m n l.held e (omega arith) i
Step-Inv {l} (ending n m s e) i = leave-Inv l m l.submitting n e (omega arith) i
Step-Inv {l} (marking r) i = mark_closed-Inv l r i
Step-Inv {l} (closing answer r) i = close_next-Inv l answer r i
Step-Inv {l} (returning r z) i = end_release-Inv l r z i

pub Reaches-Inv : {l : Lifecycle} → Reaches new_lifecycle l → Inv l
Reaches-Inv here = record { balance = refl; stage = (refl, refl) }
Reaches-Inv (next r s) = Step-Inv s (Reaches-Inv r)
