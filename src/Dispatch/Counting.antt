-- ===== src/Dispatch/Counting.antt =====
-- internal/dispatch/dispatch.go: how often a job stands among others.
use prukka.Base.{
  ℕ, zero, suc, ◌+◌, ◌≡◌, refl, List, [], ◌∷◌, ◌++◌, if◌then◌else◌, ◌==◌, arith, replicate,
}
use prukka.Dispatch.{Worker, idle, stopped, running}

abbrev pub one_if : ℕ → ℕ → ℕ
one_if job k = if job == k then 1 else 0

unfoldable pub count : ℕ → List ℕ → ℕ
count job [] = 0
count job (k ∷ ks) = one_if job k + count job ks

unfoldable pub count_running : ℕ → List Worker → ℕ
count_running job [] = 0
count_running job (idle ∷ ws) = count_running job ws
count_running job (stopped ∷ ws) = count_running job ws
count_running job (running k ∷ ws) = one_if job k + count_running job ws

-- The number of workers that are busy.
unfoldable pub busy : List Worker → ℕ
busy [] = 0
busy (idle ∷ ws) = busy ws
busy (stopped ∷ ws) = busy ws
busy (running k ∷ ws) = suc (busy ws)

pub count-append : (job : ℕ) (xs ys : List ℕ) → count job (xs ++ ys) ≡ count job xs + count job ys
unfolding count
count-append job [] ys = omega arith
count-append job (x ∷ xs) ys = omega (arith, count-append job xs ys)

pub count_running-append :
    (job : ℕ) (xs ys : List Worker)
    → count_running job (xs ++ ys) ≡ count_running job xs + count_running job ys
unfolding count_running
count_running-append job [] ys = omega arith
count_running-append job (idle ∷ xs) ys = count_running-append job xs ys
count_running-append job (stopped ∷ xs) ys = count_running-append job xs ys
count_running-append job (running k ∷ xs) ys = omega (arith, count_running-append job xs ys)

pub busy-append : (xs ys : List Worker) → busy (xs ++ ys) ≡ busy xs + busy ys
unfolding busy
busy-append [] ys = omega arith
busy-append (idle ∷ xs) ys = busy-append xs ys
busy-append (stopped ∷ xs) ys = busy-append xs ys
busy-append (running k ∷ xs) ys = omega (arith, busy-append xs ys)

pub count_running-idle : (job n : ℕ) → count_running job (replicate n idle) ≡ 0
unfolding count_running
count_running-idle job zero = refl
count_running-idle job (suc n) = count_running-idle job n

pub busy-idle : (n : ℕ) → busy (replicate n idle) ≡ 0
unfolding busy
busy-idle zero = refl
busy-idle (suc n) = busy-idle n
