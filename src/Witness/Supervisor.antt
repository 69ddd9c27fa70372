-- ===== src/Witness/Supervisor.antt =====
-- The theorems on the supervisor at the inputs of `Samples`.
use media_shuttle.Prelude.{
  ℕ, ◌+◌, ◌≤◌, ◌≡◌, ◌≢◌, inl, inr, refl, ap, subst, Option, none, some, [], ◌∷◌, All, arith, get_or,
}
use media_shuttle.Py.Text.{str, strip, lower}
use media_shuttle.Py.Exec.{ok, Exec}
use media_shuttle.Core.Workers.{Report}
use media_shuttle.Core.Control.{wait_exit}
use media_shuttle.Core.Control.Rounds.{wait_exit-enough}
use media_shuttle.Core.Slots.{worker_slot, start_command}
use media_shuttle.Core.Slots.Commands.{no_overrides, Starts, start_command-worker_slot}
use media_shuttle.Core.Supervisor.Waits.{first_exit, wait_stopped}
use media_shuttle.Core.Supervisor.Run.{supervise}
use media_shuttle.Core.Supervisor.Shutdown.{procs_of}
use media_shuttle.Core.Supervisor.Rounds.{wait_stopped-enough}
use media_shuttle.Core.Supervisor.Stopped.{supervise-Gone}
use media_shuttle.Samples.{env}
use media_shuttle.Samples.Supervisor.{
  Box, box_env, box_processes, host, workers, box, IsGone, code_when-zero,
}

plain_parse : lower (strip (str "parse")) ≡ str "parse"
unfolding lower strip
plain_parse = refl

start_command-worker_slot_example :
    Starts (start_command env (some (str "parse")) no_overrides) (worker_slot env (str "parse"))
start_command-worker_slot_example = start_command-worker_slot env b'p' (str "arse") plain_parse

clock_runs : (w : Box) → box_processes.time w + 1 ≤ box_processes.time (box_processes.sleep w)
clock_runs w = omega arith

wait_stopped-enough_example :
    wait_stopped box_env host 60 (box.clock + 50) (44 ∷ 45 ∷ []) box
    ≡ wait_stopped box_env host 50 (box.clock + 50) (44 ∷ 45 ∷ []) box
wait_stopped-enough_example =
    wait_stopped-enough box_env host clock_runs 60 (44 ∷ 45 ∷ []) box (omega arith)

wait_exit-enough_example :
    wait_exit box_env box_processes 120 (box.clock + 100) 44 box
    ≡ wait_exit box_env box_processes 100 (box.clock + 100) 44 box
wait_exit-enough_example =
    wait_exit-enough box_env box_processes clock_runs 120 44 box (omega arith)

-- The registry leaves the box alone.
upsert_leaves :
    (upsert : Report → Exec Box (Unit {0})) (report : Report) (w : Box)
    → host.mongo_upsert ≡ some upsert
    → w ≡ (upsert report w).1
upsert_leaves upsert report w e =
    ap (λ (o : Option (Report → Exec Box (Unit {0}))). (get_or o (λ r v. (ok tt, v)) report w).1) e

some_end : (w : Box) → w.left ≡ 0 → first_exit box_env host (procs_of workers) w ≢ none
unfolding first_exit
some_end w over = rw over (λ e. cc e)

supervise-Gone_example :
    ((supervise box_env host 3 workers box).0 ≢ ok none)
    × All (λ r. IsGone r.1 (supervise box_env host 3 workers box).1) workers
supervise-Gone_example =
    supervise-Gone box_env host (λ w. w.left) (λ w. omega arith)
      (λ upsert report w e.
        subst (λ v. v.left ≤ w.left) (upsert_leaves upsert report w e) (omega arith))
      workers some_end IsGone (λ p code w e. inr (code_when-zero w.left code e))
      (λ p w. inl (inl refl)) (λ p q w gone. after_kill p q w gone) (λ p q w gone. gone)
      (λ p w gone. gone)
      (λ p upsert report w e gone. subst (IsGone p) (upsert_leaves upsert report w e) gone) box
  where
    after_kill : (p q : ℕ) (w : Box) → IsGone p w → IsGone p (box_processes.kill q w)
    after_kill p q w (inl i) = inl (inr i)
    after_kill p q w (inr e) = inr e
