-- ===== src/Core/Supervisor/Stopped.antt =====
-- What the supervisor leaves when it ends.
use media_shuttle.Prelude.{
  ℕ, suc, ◌-◌, ◌≤◌, ◌≡◌, ◌≢◌, refl, inl, inr, Option, none, some, List, [], ◌∷◌, ℤ, All, In, arith,
}
use media_shuttle.Py.Text.{Text}
use media_shuttle.Py.Exec.{
  Result, ok, err, Exec, pure, raise, continue, ◌>>=◌, try_finally, after_finally,
}
use media_shuttle.Py.Exec.Triple.{Post}
use media_shuttle.Core.Env.{Env}
use media_shuttle.Core.Workers.{Report}
use media_shuttle.Core.Supervisor.{Waited, exited, interrupted, Host, Running, signal_reason}
use media_shuttle.Core.Supervisor.Waits.{first_exit, wait_loop, wait_for_any_exit}
use media_shuttle.Core.Supervisor.Run.{
  stop_all, report_exit, report_shutdown, code_of_signal, conclude, supervise,
}
use media_shuttle.Core.Supervisor.Shutdown.{procs_of, conclude-Gone}
use media_shuttle.Core.Supervisor.Ends.{wait_loop-Ends}

not_none :
    {W : Type 0} (r : Result (Option Waited)) (w : W)
    → Post (λ waited _. waited ≢ none) (λ _ _. Unit) r w
    → r ≢ ok none
not_none (ok waited) w h e = h (cc e)
not_none (err reason) w h e = cc e

given_code :
    {W : Type 0} (r : Result (Unit {0})) (code : ℤ) (w : W)
    → (continue r (λ _. pure (some code)) w).0 ≢ ok none
given_code (ok _) code w e = cc e
given_code (err reason) code w e = cc e

given_raise :
    {W : Type 0} (r : Result (Unit {0})) (reason : Text) (w : W)
    → (continue r (λ _. raise {A = Option ℤ} reason) w).0 ≢ ok none
given_raise (ok _) reason w e = cc e
given_raise (err other) reason w e = cc e

All-procs :
    (P : ℕ → Type 0) (started : List Running)
    → ((p : ℕ) → In p (procs_of started) → P p)
    → All (λ r. P r.1) started
All-procs P [] h = tt
All-procs P ((slot, proc) ∷ started) h =
    (h proc (inl refl), All-procs P started (λ p i. h p (inr i)))

module _ {W : Type 0} (env : Env W) (host : Host W) where
  -- Where the wait ended, so does the supervisor.
  conclude-ends :
      (waited : Result (Option Waited)) (started : List Running) (w : W)
      → waited ≢ ok none
      → (conclude env host waited started w).0 ≢ ok none
  unfolding conclude ◌>>=◌ try_finally
  conclude-ends (err reason) started w ends =
      given_raise (stop_all env host none started w).0 reason (stop_all env host none started w).1
  conclude-ends (ok none) started w ends = absurd (ends refl)
  conclude-ends (ok (some (exited proc code))) started w ends =
      let (r, w') = report_exit env host proc code started w in
      let (r', w'') = stop_all env host none started w' in given_code (after_finally r r') code w''
  conclude-ends (ok (some (interrupted signum))) started w ends =
      let (r, w') = report_shutdown env host (signal_reason env host signum) started w in
      let (r', w'') = stop_all env host (some signum) started w' in
      given_code (after_finally r r') (code_of_signal env host signum) w''

  ends_of :
      (rounds : ℕ) (started : List Running) (w : W)
      → ((last : ℕ) → (wait_loop env host rounds started last w).0 ≢ ok none)
      → (wait_for_any_exit env host rounds started w).0 ≢ ok none
  unfolding wait_for_any_exit
  ends_of rounds [] w loop = loop (host.monotonic w)
  ends_of rounds ((slot, proc) ∷ []) w loop = λ e. cc e
  ends_of rounds (r ∷ r' ∷ started) w loop = loop (host.monotonic w)

module _ {W : Type 0} (env : Env W) (host : Host W) (patience : W → ℕ)
    (naps : (w : W) → patience (host.nap w).1 ≤ patience w - 1)
    (reports : (upsert : Report → Exec W (Unit {0})) (report : Report) (w : W)
      → host.mongo_upsert ≡ some upsert
      → patience (upsert report w).1 ≤ patience w)
    (started : List Running)
    (quiet : (w : W) → patience w ≡ 0 → first_exit env host (procs_of started) w ≢ none) where
  wait_for_any_exit-ends :
      (w : W) → (wait_for_any_exit env host (suc (patience w)) started w).0 ≢ ok none
  wait_for_any_exit-ends w = ends_of env host (suc (patience w)) started w (λ last. not_none _ _ (
      (wait_loop-Ends env host patience naps reports started quiet (patience w) last).at w
        (omega arith)))

  module _ (Gone : ℕ → W → Type 0)
      (ended : (p : ℕ) (code : ℤ) (w : W) → host.processes.poll p w ≡ some code → Gone p w)
      (killed : (p : ℕ) (w : W) → Gone p (host.processes.kill p w))
      (after_kill : (p q : ℕ) (w : W) → Gone p w → Gone p (host.processes.kill q w))
      (after_terminate : (p q : ℕ) (w : W) → Gone p w → Gone p (host.processes.terminate q w))
      (after_sleep : (p : ℕ) (w : W) → Gone p w → Gone p (host.processes.sleep w))
      (after_upsert : (p : ℕ) (upsert : Report → Exec W (Unit {0})) (report : Report) (w : W)
        → host.mongo_upsert ≡ some upsert
        → Gone p w
        → Gone p (upsert report w).1) where
    -- The supervisor ends, with an exit code or with an exception of the registry, and by then every
    -- worker that it started has ended or was killed. The hypotheses: the patience of the world
    -- falls with each sleep of the wait, does not rise with a report, and where it is 0 some worker
    -- has ended; what has ended or was killed stays so.
    pub supervise-Gone :
        (w : W)
        → ((supervise env host (suc (patience w)) started w).0 ≢ ok none)
          × All (λ r. Gone r.1 (supervise env host (suc (patience w)) started w).1) started
    unfolding supervise
    supervise-Gone w =
        let (waited, w') = wait_for_any_exit env host (suc (patience w)) started w in
        let ends = wait_for_any_exit-ends w in
        (
          conclude-ends env host waited started w' ends,
          All-procs (λ p. Gone p (conclude env host waited started w').1) started
              (λ p i.
                conclude-Gone env host Gone ended killed after_kill after_terminate after_sleep
                  after_upsert p waited started w' ends i),
        )
