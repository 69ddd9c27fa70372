-- ===== src/Core/Supervisor/Waits.antt =====
-- media-shuttle-core/core/queue/worker_process.py, `_terminate_workers` and `_wait_for_any_exit`: the waits
-- of the supervisor.
use media_shuttle.Prelude.{
  ℕ, zero, suc, ◌+◌, Option, none, some, List, [], ◌∷◌, map, ltb, leb, if◌then◌else◌,
}
use media_shuttle.Py.Text.{str}
use media_shuttle.Py.Exec.{ok, Exec, pure, gets, ◌>>=◌, ◌>>◌}
use media_shuttle.Core.Env.{Env}
use media_shuttle.Core.Supervisor.{Waited, exited, interrupted, Host, Running, poll, upsert_worker}

module _ {W : Type 0} (env : Env W) (host : Host W) where
  -- `[proc for proc in procs if proc.poll() is None]`
  unfoldable pub still_running : List ℕ → W → List ℕ
  still_running [] w = []
  still_running (proc ∷ procs) w =
      let rest = still_running procs w in
      elim (poll env host proc w) [ none ↦ proc ∷ rest | some code ↦ rest ]

  unfoldable pub each : (ℕ → W → W) → List ℕ → W → W
  each act [] w = w
  each act (proc ∷ procs) w = each act procs (act proc w)

  -- `if running: time.sleep(0.1)`
  unfoldable pub sleep_for : List ℕ → W → W
  sleep_for [] w = w
  sleep_for (proc ∷ procs) w = host.processes.sleep w

  -- The loop that waits for the processes, at most until the deadline.
  unfoldable pub wait_stopped : ℕ → ℕ → List ℕ → W → List ℕ × W
  unfolding still_running sleep_for
  wait_stopped rounds deadline [] w = ([], w)
  wait_stopped zero deadline (proc ∷ procs) w = (proc ∷ procs, w)
  wait_stopped (suc rounds) deadline (proc ∷ procs) w =
      let running = still_running (proc ∷ procs) w in
      let later = wait_stopped rounds deadline running (sleep_for running w) in
      if ltb (host.processes.time w) deadline then later else (proc ∷ procs, w)

  -- Five seconds are fifty rounds.
  unfoldable pub terminate_workers : List ℕ → W → W
  unfolding still_running each wait_stopped
  terminate_workers procs w =
      let running = still_running procs w in
      let asked = each host.processes.terminate running w in
      let (left, waited) = wait_stopped 50 (host.processes.time asked + 50) running asked in
      each host.processes.kill left waited

  -- The first process that ended.
  unfoldable pub first_exit : List ℕ → W → Option Waited
  first_exit [] w = none
  first_exit (proc ∷ procs) w =
      let rest = first_exit procs w in
      elim (poll env host proc w) [ none ↦ rest | some code ↦ some (exited proc code) ]

  -- `on_tick`: the workers that run are reported.
  unfoldable pub report_running : List Running → Exec W (Unit {0})
  unfolding upsert_worker
  report_running [] w = (ok tt, w)
  report_running ((slot, proc) ∷ started) w = elim (poll env host proc w) [
    | some code ↦ report_running started w
    | none ↦ (upsert_worker env host slot (some proc) (str "READY") [] >> report_running started) w
  ]

  -- Five seconds after the last report there is another one; gives the time of the last.
  unfoldable pub tick : List Running → ℕ → Exec W ℕ
  unfolding report_running
  tick started last_tick w =
      if leb (last_tick + 50) (host.monotonic w)
      then (do report_running started; now ← gets host.monotonic; pure now) w
      else (ok last_tick, w)

  -- `time.sleep(0.2)`
  abbrev pub nap_signal : Exec W (Option (Option ℕ))
  nap_signal w = let (signal, w') = host.nap w in (ok signal, w')

  abbrev pub unless_signal : Option (Option ℕ) → Exec W (Option Waited) → Exec W (Option Waited)
  unless_signal (some signum) again = pure (some (interrupted signum))
  unless_signal none again = again

  -- The rest of a round in which no process has ended.
  unfoldable pub next_round :
      List Running → ℕ → (ℕ → Exec W (Option Waited)) → Exec W (Option Waited)
  unfolding tick
  next_round started last_tick again = do
    last ← tick started last_tick
    signal ← nap_signal
    unless_signal signal (again last)

  -- The loop over several processes; `none` where the rounds do not suffice.
  unfoldable pub wait_loop : ℕ → List Running → ℕ → Exec W (Option Waited)
  unfolding first_exit next_round
  wait_loop zero started last_tick w = (ok none, w)
  wait_loop (suc rounds) started last_tick w = elim (first_exit (map (λ r. r.1) started) w) [
    | some waited ↦ (ok (some waited), w)
    | none ↦ next_round started last_tick (λ last. wait_loop rounds started last) w
  ]

  unfoldable pub wait_for_any_exit : ℕ → List Running → Exec W (Option Waited)
  unfolding wait_loop
  wait_for_any_exit rounds ((slot, proc) ∷ []) w =
      let (waited, w') = host.wait proc w in (ok (some waited), w')
  wait_for_any_exit rounds started w = wait_loop rounds started (host.monotonic w) w
