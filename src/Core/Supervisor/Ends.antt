-- ===== src/Core/Supervisor/Ends.antt =====
-- That the supervisor ends, if its workers do not all run for ever.
use media_shuttle.Prelude.{
  ℕ, zero, suc, ◌-◌, ◌≤◌, ◌≡◌, ◌≢◌, inl, inr, Option-cases, Option, none, some, List, arith,
}
use media_shuttle.Py.Exec.{Exec}
use media_shuttle.Py.Exec.Keeps.{Keeps}
use media_shuttle.Py.Exec.Triple.{Triple, Triple-pure, Triple-bind, Triple-keeps}
use media_shuttle.Core.Supervisor.Reports.{tick-Keeps}
use media_shuttle.Core.Env.{Env}
use media_shuttle.Core.Workers.{Report}
use media_shuttle.Core.Supervisor.{Waited, interrupted, Host, Running}
use media_shuttle.Core.Supervisor.Waits.{
  first_exit, tick, wait_loop, nap_signal, next_round, unless_signal,
}
use media_shuttle.Core.Supervisor.Shutdown.{procs_of}

module _ {W : Type 0} (env : Env W) (host : Host W) (patience : W → ℕ)
    (naps : (w : W) → patience (host.nap w).1 ≤ patience w - 1)
    (reports : (upsert : Report → Exec W (Unit {0})) (report : Report) (w : W)
      → host.mongo_upsert ≡ some upsert
      → patience (upsert report w).1 ≤ patience w) where
  abbrev Within : ℕ → W → Type 0
  Within n w = patience w ≤ n

  tick-Within :
      (n : ℕ) (started : List Running) (last_tick : ℕ)
      → Keeps (Within n) (tick env host started last_tick)
  tick-Within n started last_tick =
      tick-Keeps env host (Within n)
        (λ upsert report e. record { at = λ w h. omega (arith, reports upsert report w e, h) })
        started last_tick

  abbrev Ends : ℕ → Exec W (Option Waited) → Type 0
  Ends n action = Triple (Within n) action (λ waited _. waited ≢ none) (λ _ _. Unit)

  nap-Within : (n : ℕ) → Triple (Within (suc n)) (nap_signal env host) (λ _. Within n) (λ _ _. Unit)
  nap-Within n = record { at = λ w h. omega (arith, naps w, h) }

  unless_signal-Ends :
      (n : ℕ) (signal : Option (Option ℕ)) (again : Exec W (Option Waited))
      → Ends n again
      → Ends n (unless_signal env host signal again)
  unless_signal-Ends n (some signum) again ends =
      Triple-pure (some (interrupted signum)) (λ w h absent. cc absent)
  unless_signal-Ends n none again ends = ends

  next_round-Ends :
      (n last_tick : ℕ) (started : List Running) (again : ℕ → Exec W (Option Waited))
      → ((last : ℕ) → Ends n (again last))
      → Ends (suc n) (next_round env host started last_tick again)
  unfolding next_round
  next_round-Ends n last_tick started again ends =
      Triple-bind (tick env host started last_tick) _
        (Triple-keeps (Within (suc n)) _ (tick-Within (suc n) started last_tick))
        (λ last.
          Triple-bind (nap_signal env host) _ (nap-Within n)
            (λ signal. unless_signal-Ends n signal (again last) (ends last)))

  module _ (started : List Running)
      (quiet : (w : W) → patience w ≡ 0 → first_exit env host (procs_of started) w ≢ none) where
    -- With one round more than the patience the loop ends, or a report to the registry raises.
    pub wait_loop-Ends : (n last_tick : ℕ) → Ends n (wait_loop env host (suc n) started last_tick)
    unfolding wait_loop
    wait_loop-Ends zero last_tick = record {
      at = λ w h. elim (Option-cases (first_exit env host (procs_of started) w)) [
        | inr (waited, e) ↦ rw (e, wait_loop) (λ absent. cc absent)
        | inl nobody ↦ absurd (quiet w (omega (arith, h)) nobody)
      ];
    }
    wait_loop-Ends (suc n) last_tick = record {
      at = λ w h. elim (Option-cases (first_exit env host (procs_of started) w)) [
        | inr (waited, e) ↦ rw (e, wait_loop) (λ absent. cc absent)
        | inl nobody ↦
            rw (nobody, wait_loop)
              ((next_round-Ends n last_tick started _ (λ last. wait_loop-Ends n last)).at w h)
      ];
    }
