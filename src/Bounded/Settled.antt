-- ===== src/Bounded/Settled.antt =====
-- internal/providers/bounded/bounded.go: what a release that has returned leaves, and how it gets there.
use prukka.Base.{
  ℕ, zero, suc, ◌+◌, ◌*◌, ◌≤◌, ◌<◌, ◌≡◌, ◌⊎◌, refl, sym, ap, subst, ◌∙◌, true, none, some, inl, inr,
  arith,
}
use prukka.Bounded.{
  Release, unreleased, marked, waiting, released, Lifecycle, new_lifecycle, done, done_from,
  begin_call, accept_call, refuse_call, end_task, mark_closed, close_next, end_release, Step,
  beginning, accepting, refusing, ending, marking, closing, returning, Reaches, here, next,
}
use prukka.Bounded.Invariant.{Stage, Inv, Step-Inv, Reaches-Inv, done-some, begin_call-some}

-- No call is on its way, none is accepted any more, and the provider was closed once.
pub record IsSettled (l : Lifecycle) : Type 0 where
  pub none_submitting : l.submitting ≡ 0
  pub none_held : l.held ≡ 0
  pub refuses : begin_call l ≡ none
  pub closed_once : l.closes ≡ 1

abbrev Stopped : Lifecycle → Type 0
Stopped l = (l.closed ≡ true) × (l.closes ≡ 1) × (l.tasks ≡ 0)

Inv-Stopped : (l : Lifecycle) → Inv l → l.release ≡ released → Stopped l
Inv-Stopped l i r = subst (λ k. Stage k l.closed l.closes l.tasks) r i.stage

no_step : {l m : Lifecycle} → Inv l → l.release ≡ released → Step l m → m ≡ l
no_step {l} i r (beginning m e) = cc ((begin_call-some l m e).0, (Inv-Stopped l i r).0)
no_step {l} i r (accepting n s) = absurd (omega (arith, i.balance, (Inv-Stopped l i r).2, s))
no_step {l} i r (refusing n m s e) = absurd (omega (arith, i.balance, (Inv-Stopped l i r).2, s))
no_step {l} i r (ending n m s e) = absurd (omega (arith, i.balance, (Inv-Stopped l i r).2, s))
no_step i r (marking k) = cc
no_step i r (closing answer k) = cc
no_step i r (returning k z) = cc

pub stays : {l m : Lifecycle} → Inv l → l.release ≡ released → Reaches l m → m ≡ l
stays i r here = refl
stays {l} i r (next {l = p} reaches s) =
    let e = stays i r reaches in
    no_step (subst Inv (sym e) i) (subst (λ x. x.release ≡ released) (sym e) r) s ∙ e

-- What is left to do before the release returns.
unfoldable rank : Release → ℕ
rank unreleased = 3
rank marked = 2
rank waiting = 1
rank released = 0

unfoldable pub left : Lifecycle → ℕ
unfolding rank
left l = 2 * l.submitting + l.held + rank l.release

pub Step-left : {l m : Lifecycle} → Step l m → l.closed ≡ true → left m < left l
unfolding left accept_call refuse_call end_task mark_closed close_next end_release
Step-left {l} (beginning m e) c = let (open_, q) = begin_call-some l m e in cc
Step-left (accepting n s) c = omega arith
Step-left {l} (refusing n m s e) c =
    let (k, t, q) = done-some (record l { submitting = n }) m e in
    subst (λ x. left x < left l) (sym q) (omega arith)
Step-left {l} (ending n m s e) c =
    let (k, t, q) = done-some (record l { held = n }) m e in
    subst (λ x. left x < left l) (sym q) (omega arith)
Step-left {l} (marking r) c = rw (r) (omega arith)
Step-left {l} (closing answer r) c = rw (r) (omega arith)
Step-left {l} (returning r z) c = rw (r) (omega arith)

-- A run that takes one step first.
first : {l m n : Lifecycle} → Step l m → Reaches m n → Reaches l n
first s here = next here s
first s (next r t) = next (first s r) t

-- A step that is there as long as the release has not returned.
Move : Lifecycle → Type 0
Move l = (m : Lifecycle) × Step l m

counted_done : (l : Lifecycle) (n : ℕ) → l.tasks ≡ suc n → (m : Lifecycle) × (done l ≡ some m)
unfolding done
counted_done l n e = (record l { tasks = n }, rw (e, done_from) refl)

moves : (l : Lifecycle) → Inv l → l.closed ≡ true → (l.release ≡ released) ⊎ Move l
unfolding Move end_task
moves l i c = look l.submitting refl l.held refl l.release refl
  where
    look :
        (s : ℕ)
        → l.submitting ≡ s
        → (h : ℕ) → l.held ≡ h
        → (r : Release) → l.release ≡ r
        → (l.release ≡ released) ⊎ Move l
    look s es h eh released er = inl er
    look s es h eh marked er = unfold Move in inr (close_next l none, closing none er)
    look s es h eh unreleased er =
        absurd (cc ((subst (λ k. Stage k l.closed l.closes l.tasks) er i.stage).0, c))
    look (suc n) es h eh waiting er = unfold Move in inr (accept_call l n, accepting n es)
    look zero es (suc h) eh waiting er =
        unfold Move end_task in
        let (m, e) = counted_done (record l { held = h }) h (omega (arith, i.balance)) in
        inr (m, ending h m eh e)
    look zero es zero eh waiting er =
        unfold Move in inr (end_release l, returning er (omega (arith, i.balance)))

Step-closed : {l m : Lifecycle} → Step l m → l.closed ≡ true → m.closed ≡ true
unfolding accept_call refuse_call end_task mark_closed close_next end_release
Step-closed {l} (beginning m e) c = let (open_, q) = begin_call-some l m e in cc
Step-closed (accepting n s) c = c
Step-closed {l} (refusing n m s e) c =
    let (k, t, q) = done-some (record l { submitting = n }) m e in ap (λ x. x.closed) q ∙ c
Step-closed {l} (ending n m s e) c =
    let (k, t, q) = done-some (record l { held = n }) m e in ap (λ x. x.closed) q ∙ c
Step-closed (marking r) c = refl
Step-closed (closing answer r) c = c
Step-closed (returning r z) c = c

Returns : Lifecycle → Type 0
Returns l = (m : Lifecycle) × Reaches l m × (m.release ≡ released)

left-Returns : (k : ℕ) (l : Lifecycle) → Inv l → l.closed ≡ true → left l ≤ k → Returns l
unfolding Returns Move
left-Returns zero l i c h = elim (moves l i c) [
  | inl r ↦ (l, here, r)
  | inr (m, s) ↦ absurd (omega (arith, Step-left s c, h))
]
left-Returns (suc k) l i c h = elim (moves l i c) [
  | inl r ↦ (l, here, r)
  | inr (m, s) ↦
      let (n, reaches, r) =
        left-Returns k m (Step-Inv s i) (Step-closed s c) (omega (arith, Step-left s c, h)) in
      (n, first s reaches, r)
]

-- Whatever the calls, the pool and the release did before, when the release has returned no call is on
-- its way or held by the pool, further ones are refused, the provider was closed once, and no step
-- changes that.
pub Reaches-IsSettled :
    {l : Lifecycle}
    → Reaches new_lifecycle l
    → l.release ≡ released
    → IsSettled l × ((m : Lifecycle) → Reaches l m → m ≡ l)
unfolding begin_call
Reaches-IsSettled {l} reaches r =
    let i = Reaches-Inv reaches in
    let s = Inv-Stopped l i r in
    (
      record {
        none_submitting = omega (arith, i.balance, s.2);
        none_held = omega (arith, i.balance, s.2);
        refuses = rw (s.0) refl;
        closed_once = s.1;
      },
      λ m more. stays i r more,
    )

-- From every state in which the life cycle is closed a run leads to the release's return, and every
-- step, whoever takes it, lowers the work that is left: the release cannot wait for ever while the calls
-- and the pool go on.
pub Reaches-Returns :
    {l : Lifecycle}
    → Reaches new_lifecycle l
    → l.closed ≡ true
    → ((m : Lifecycle) × Reaches l m × (m.release ≡ released))
      × ((m : Lifecycle) → Step l m → left m < left l)
unfolding Returns
Reaches-Returns {l} reaches c =
    (left-Returns (left l) l (Reaches-Inv reaches) c (omega arith), λ m s. Step-left s c)
