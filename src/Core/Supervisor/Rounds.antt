-- ===== src/Core/Supervisor/Rounds.antt =====
-- That the rounds which the model gives to the wait after a termination suffice.
use media_shuttle.Prelude.{
  ℕ, zero, suc, false, ◌+◌, ◌≤◌, ◌≡◌, refl, inl, inr, List, [], ◌∷◌, arith, Bool-cases, ltb,
}
use media_shuttle.Core.Env.{Env}
use media_shuttle.Core.Supervisor.{Host}
use media_shuttle.Core.Supervisor.Waits.{still_running, sleep_for, wait_stopped}

module _ {W : Type 0} (env : Env W) (host : Host W)
    (sleeps : (w : W)
      → host.processes.time w + 1 ≤ host.processes.time (host.processes.sleep w)) where
  -- Once the deadline is over the loop ends at once.
  wait_stopped-late :
      (rounds deadline : ℕ) (procs : List ℕ) (w : W)
      → deadline ≤ host.processes.time w
      → wait_stopped env host rounds deadline procs w ≡ (procs, w)
  unfolding wait_stopped
  wait_stopped-late rounds deadline [] w late = refl
  wait_stopped-late zero deadline (p ∷ procs) w late = refl
  wait_stopped-late (suc rounds) deadline (p ∷ procs) w late = rw (over _ _ late) refl
    where
      over : (a b : ℕ) → b ≤ a → ltb a b ≡ false
      over a b h = ground arith

  enough :
      (n more deadline : ℕ) (procs : List ℕ) (w : W)
      → n ≤ more
      → deadline ≤ host.processes.time w + n
      → wait_stopped env host more deadline procs w ≡ wait_stopped env host n deadline procs w
  unfolding wait_stopped sleep_for
  enough n more deadline [] w h soon = refl
  enough zero more deadline (p ∷ procs) w h soon =
      wait_stopped-late more deadline (p ∷ procs) w (omega (arith, soon))
  enough (suc n) zero deadline (p ∷ procs) w h soon = absurd (omega (arith, h))
  enough (suc n) (suc more) deadline (p ∷ procs) w h soon =
      elim (Bool-cases (ltb (host.processes.time w) deadline)) [
        | inr late ↦ rw late refl
        | inl early ↦ rw early (
            again (still_running env host (p ∷ procs) w) (λ running.
              enough n more deadline running (host.processes.sleep w) (omega (arith, h))
                (omega (arith, sleeps w, soon))))
      ]
    where
      again :
          (running : List ℕ)
          → ((left : List ℕ)
              → wait_stopped env host more deadline left (host.processes.sleep w)
                ≡ wait_stopped env host n deadline left (host.processes.sleep w))
          → wait_stopped env host more deadline running (sleep_for env host running w)
            ≡ wait_stopped env host n deadline running (sleep_for env host running w)
      again [] next = refl
      again (q ∷ running) next = next (q ∷ running)

  -- The wait for terminated processes, which is over five seconds later, comes to the same with any
  -- more than fifty rounds, if each sleep takes a tenth of a second.
  pub wait_stopped-enough :
      (more : ℕ) (procs : List ℕ) (w : W)
      → 50 ≤ more
      → wait_stopped env host more (host.processes.time w + 50) procs w
        ≡ wait_stopped env host 50 (host.processes.time w + 50) procs w
  wait_stopped-enough more procs w h =
      enough 50 more (host.processes.time w + 50) procs w h (omega arith)
