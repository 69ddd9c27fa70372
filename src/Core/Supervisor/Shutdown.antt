-- ===== src/Core/Supervisor/Shutdown.antt =====
-- That the supervisor leaves no worker behind: each has ended or is killed.
use media_shuttle.Prelude.{
  ℕ, zero, suc, ◌≡◌, ◌≢◌, sym, subst, ◌⊎◌, inl, inr, refl, Bool-cases, Option-cases, Option, none,
  some, List, [], ◌∷◌, map, ℤ, In, ltb, ◌+◌,
}
use media_shuttle.Py.Text.{Text}
use media_shuttle.Py.Exec.{
  Result, ok, err, Exec, pure, raise, continue, ◌>>=◌, try_finally, after_finally,
}
use media_shuttle.Core.Env.{Env}
use media_shuttle.Core.Workers.{Report}
use media_shuttle.Core.Supervisor.Reports.{last_reports-Keeps}
use media_shuttle.Core.Supervisor.{Waited, exited, interrupted, Host, Running, signal_reason}
use media_shuttle.Core.Supervisor.Waits.{
  still_running, each, sleep_for, wait_stopped, terminate_workers,
}
use media_shuttle.Core.Supervisor.Run.{
  stop_all, report_exit, report_shutdown, conclude, code_of_signal,
}

-- The processes of the slots.
abbrev pub procs_of : List Running → List ℕ
procs_of started = map (λ r. r.1) started

module _ {W : Type 0} (env : Env W) (host : Host W) (Gone : ℕ → W → Type 0)
    (ended : (p : ℕ) (code : ℤ) (w : W) → host.processes.poll p w ≡ some code → Gone p w)
    (killed : (p : ℕ) (w : W) → Gone p (host.processes.kill p w))
    (after_kill : (p q : ℕ) (w : W) → Gone p w → Gone p (host.processes.kill q w))
    (after_terminate : (p q : ℕ) (w : W) → Gone p w → Gone p (host.processes.terminate q w))
    (after_sleep : (p : ℕ) (w : W) → Gone p w → Gone p (host.processes.sleep w))
    (after_upsert : (p : ℕ) (upsert : Report → Exec W (Unit {0})) (report : Report) (w : W)
      → host.mongo_upsert ≡ some upsert
      → Gone p w
      → Gone p (upsert report w).1) where
  each-stays :
      (act : ℕ → W → W) (p : ℕ) (procs : List ℕ) (w : W)
      → ((q : ℕ) (v : W) → Gone p v → Gone p (act q v))
      → Gone p w
      → Gone p (each env host act procs w)
  unfolding each
  each-stays act p [] w stays gone = gone
  each-stays act p (q ∷ procs) w stays gone =
      each-stays act p procs (act q w) stays (stays q w gone)

  kill-Gone :
      (p : ℕ) (procs : List ℕ) (w : W)
      → Gone p w ⊎ In p procs
      → Gone p (each env host host.processes.kill procs w)
  unfolding each
  kill-Gone p procs w (inl gone) =
      each-stays host.processes.kill p procs w (λ q v g. after_kill p q v g) gone
  kill-Gone p [] w (inr i) = absurd i
  kill-Gone p (q ∷ procs) w (inr (inl same)) =
      kill-Gone p procs (host.processes.kill q w)
        (inl (subst (λ r. Gone p (host.processes.kill r w)) same (killed p w)))
  kill-Gone p (q ∷ procs) w (inr (inr i)) = kill-Gone p procs (host.processes.kill q w) (inr i)

  -- A process of the list has ended or is still in it.
  In-still_running :
      (p : ℕ) (procs : List ℕ) (w : W)
      → In p procs
      → Gone p w ⊎ In p (still_running env host procs w)
  unfolding still_running
  In-still_running p [] w i = absurd i
  In-still_running p (q ∷ procs) w (inl same) = elim (Option-cases (host.processes.poll q w)) [
    | inl none_yet ↦ rw (none_yet, In) (inr (inl same))
    | inr (code, e) ↦ inl (subst (λ r. Gone r w) (sym same) (ended q code w e))
  ]
  In-still_running p (q ∷ procs) w (inr i) = elim (In-still_running p procs w i) [
    | inl gone ↦ inl gone
    | inr there ↦ elim (Option-cases (host.processes.poll q w)) [
      | inl none_yet ↦ rw (none_yet, In) (inr (inr there))
      | inr (code, e) ↦ rw (e, In) (inr there)
    ]
  ]

  still_running-covers :
      (p : ℕ) (procs : List ℕ) (w : W)
      → Gone p w ⊎ In p procs
      → Gone p w ⊎ In p (still_running env host procs w)
  still_running-covers p procs w (inl gone) = inl gone
  still_running-covers p procs w (inr i) = In-still_running p procs w i

  sleep_for-covers :
      (p : ℕ) (procs : List ℕ) (w : W)
      → Gone p w ⊎ In p procs
      → Gone p (sleep_for env host procs w) ⊎ In p procs
  unfolding sleep_for
  sleep_for-covers p [] w h = h
  sleep_for-covers p (q ∷ procs) w (inl gone) = inl (after_sleep p w gone)
  sleep_for-covers p (q ∷ procs) w (inr i) = inr i

  wait_stopped-covers :
      (rounds deadline p : ℕ) (procs : List ℕ) (w : W)
      → Gone p w ⊎ In p procs
      → let (left, w') = wait_stopped env host rounds deadline procs w in Gone p w' ⊎ In p left
  unfolding wait_stopped
  wait_stopped-covers rounds deadline p [] w h = h
  wait_stopped-covers zero deadline p (q ∷ procs) w h = h
  wait_stopped-covers (suc rounds) deadline p (q ∷ procs) w h =
      elim (Bool-cases (ltb (host.processes.time w) deadline)) [
        | inr late ↦ rw late h
        | inl early ↦
            let running = still_running env host (q ∷ procs) w in
            rw early (
              wait_stopped-covers rounds deadline p running (sleep_for env host running w)
                (sleep_for-covers p running w (still_running-covers p (q ∷ procs) w h)))
      ]

  terminate_workers-Gone :
      (p : ℕ) (procs : List ℕ) (w : W) → In p procs → Gone p (terminate_workers env host procs w)
  unfolding terminate_workers
  terminate_workers-Gone p procs w i =
      let running = still_running env host procs w in
      let asked = each env host host.processes.terminate running w in
      let started = asked-covers running (In-still_running p procs w i) in
      let waited =
        wait_stopped-covers 50 (host.processes.time asked + 50) p running asked started in
      kill-Gone p _ _ waited
    where
      asked-covers :
          (running : List ℕ)
          → Gone p w ⊎ In p running
          → Gone p (each env host host.processes.terminate running w) ⊎ In p running
      asked-covers running (inl gone) =
          inl (
            each-stays host.processes.terminate p running w (λ q v g. after_terminate p q v g) gone)
      asked-covers running (inr there) = inr there

  stop_all-Gone :
      (p : ℕ) (shutdown : Option (Option ℕ)) (started : List Running) (w : W)
      → In p (procs_of started)
      → Gone p (stop_all env host shutdown started w).1
  unfolding stop_all ◌>>=◌
  stop_all-Gone p shutdown started w i =
      (last_reports-Keeps env host (Gone p)
          (λ upsert report e. record { at = λ v g. after_upsert p upsert report v e g }) shutdown
          started).at
        _ (terminate_workers-Gone p (procs_of started) w i)

  -- The result that is given in the end does not touch the processes.
  given-Gone :
      (p : ℕ) (r : Result (Unit {0})) (code : Option ℤ) (w : W)
      → Gone p w
      → Gone p (continue r (λ _. pure code) w).1
  given-Gone p (ok _) code w gone = gone
  given-Gone p (err reason) code w gone = gone

  raised-Gone :
      (p : ℕ) (r : Result (Unit {0})) (reason : Text) (w : W)
      → Gone p w
      → Gone p (continue r (λ _. raise {A = Option ℤ} reason) w).1
  raised-Gone p (ok _) reason w gone = gone
  raised-Gone p (err other) reason w gone = gone

  pub conclude-Gone :
      (p : ℕ) (waited : Result (Option Waited)) (started : List Running) (w : W)
      → waited ≢ ok none
      → In p (procs_of started)
      → Gone p (conclude env host waited started w).1
  unfolding conclude ◌>>=◌ try_finally
  conclude-Gone p (err reason) started w ends i =
      raised-Gone p (stop_all env host none started w).0 reason _ (stop_all-Gone p none started w i)
  conclude-Gone p (ok none) started w ends i = absurd (ends refl)
  conclude-Gone p (ok (some (exited proc code))) started w ends i =
      let (r, w') = report_exit env host proc code started w in
      let (r', w'') = stop_all env host none started w' in
      given-Gone p (after_finally r r') (some code) w'' (stop_all-Gone p none started w' i)
  conclude-Gone p (ok (some (interrupted signum))) started w ends i =
      let (r, w') = report_shutdown env host (signal_reason env host signum) started w in
      let (r', w'') = stop_all env host (some signum) started w' in
      given-Gone p (after_finally r r') (some (code_of_signal env host signum)) w''
        (stop_all-Gone p (some signum) started w' i)
