-- ===== src/Api/Workers/Listing.antt =====
-- media-shuttle-api/app/service.py, `list_workers`: the records are first brought up to what the
-- control says of the running workers.
use media_shuttle.Prelude.{
  ℕ, ◌≤◌, ◌≡◌, refl, Bool, Option, none, some, List, [], ◌∷◌, arith, All, ℤ, clamp_to, clamp_to-le,
  max, zero, suc, get_or, if◌then◌else◌, length, length-take_le, take,
}
use media_shuttle.Py.Text.{Text, str, or_text, join}
use media_shuttle.Py.Dict.{Dict}
use media_shuttle.Py.Exec.{ok, Exec, pure, ◌>>=◌, ◌>>◌}
use media_shuttle.Py.Exec.Triple.{Triple-returns}
use media_shuttle.Core.Env.{Env}
use media_shuttle.Core.Model.{Event}
use media_shuttle.Api.Model.{TaskRecord, WorkerRecord}
use media_shuttle.Api.Control.{WorkerInfo, WorkerControl}
use media_shuttle.Api.Store
use media_shuttle.Api.Store.{Api, utc_now_iso, upsert_worker}
use media_shuttle.Api.Workers.{in_control, known_worker}
use media_shuttle.Api.Workers.Gives.{
  IsSound, Kept, Gives, Any, Gives-pure, Gives-bind, Gives-if, Gives-in_control, Gives-utc_now_iso,
  Gives-upsert_worker, Gives-known_worker,
}

-- `max(1, int(given or kept))`: no number and zero count alike.
unfoldable pub slots : Option ℕ → ℕ → ℕ
slots none kept = max 1 kept
slots (some zero) kept = max 1 kept
slots (some (suc n)) kept = suc n

-- `a or b` for two optional numbers.
unfoldable pub or_number : Option ℕ → Option ℕ → Option ℕ
or_number none b = b
or_number (some zero) b = b
or_number (some (suc n)) b = some (suc n)

-- `dict(given or kept)`
abbrev pub or_dict : Dict Text → Dict Text → Dict Text
or_dict [] kept = kept
or_dict (e ∷ given) kept = e ∷ given

module _ {W : Type 0} (env : Env W) (control : WorkerControl W) where
  -- `str(given or utc_now_iso())`: the clock is read only where it is needed.
  unfoldable pub or_now : Text → Exec (Api W) Text
  or_now [] = utc_now_iso env
  or_now (c ∷ s) = pure (c ∷ s)

  -- A worker that is seen: what is said of it, or else what is kept.
  unfoldable pub seen_worker : Text → WorkerInfo → WorkerRecord → Text → Text → WorkerRecord
  unfolding slots or_number
  seen_worker hostname info kept heartbeat updated = record {
    hostname = hostname;
    role = or_text info.role kept.role;
    queue = or_text info.queue (or_text (join (str ",") (get_or info.queues [])) kept.queue);
    queues = get_or info.queues kept.queues;
    status = or_text info.status (str "READY");
    concurrency = slots info.concurrency kept.concurrency;
    desired_concurrency =
        slots (or_number info.desired_concurrency info.concurrency) kept.desired_concurrency;
    node_id = or_text info.node_id kept.node_id;
    pid = get_or info.pid kept.pid;
    exit_code = get_or info.exit_code kept.exit_code;
    rate_limits = or_dict info.rate_limits kept.rate_limits;
    last_error = or_text info.last_error kept.last_error;
    started_at = or_text info.started_at kept.started_at;
    last_heartbeat_at = heartbeat;
    updated_at = updated;
  }

  unfoldable pub note_worker : Text → WorkerInfo → Exec (Api W) (Unit {0})
  unfolding seen_worker or_now
  note_worker hostname info = do
    kept ← known_worker env control hostname
    heartbeat ← or_now info.last_heartbeat_at
    updated ← or_now info.updated_at
    upsert_worker env (seen_worker hostname info kept heartbeat updated)

  unfoldable pub note_workers : List (Text × WorkerInfo) → Exec (Api W) (Unit {0})
  unfolding note_worker
  note_workers [] = pure tt
  note_workers ((hostname, info) ∷ found) = do note_worker hostname info; note_workers found

  unfoldable pub refresh_workers : Exec (Api W) (Unit {0})
  unfolding note_workers
  refresh_workers = do found ← in_control env control control.inspect_workers; note_workers found

  unfoldable pub list_workers : Option Text → ℤ → Bool → Exec (Api W) (List WorkerRecord)
  unfolding refresh_workers
  list_workers status limit refresh =
      (if refresh then refresh_workers else pure tt)
      >> (λ a. (ok (Store.list_workers status (clamp_to 500 limit) a.workers), a))

slots-pos : (given : Option ℕ) (kept : ℕ) → 1 ≤ slots given kept
unfolding slots
slots-pos none kept = omega arith
slots-pos (some zero) kept = omega arith
slots-pos (some (suc n)) kept = omega arith

short : (n : ℕ) (xs : List WorkerRecord) → n ≤ 500 → length (take n xs) ≤ 500
short n xs h = omega (arith, length-take_le n xs)

module _ {W : Type 0} (env : Env W) (control : WorkerControl W) {tasks : Dict TaskRecord}
    {events : List Event} where
  Gives-or_now : (given : Text) → Gives tasks events Any (or_now env control given)
  unfolding or_now
  Gives-or_now [] = Gives-utc_now_iso env
  Gives-or_now (c ∷ s) = Gives-pure _ tt

  Gives-note_worker :
      (hostname : Text) (info : WorkerInfo)
      → Gives tasks events Any (note_worker env control hostname info)
  unfolding note_worker seen_worker
  Gives-note_worker hostname info =
      Gives-bind _ _ (Gives-known_worker env control hostname) λ kept h.
        Gives-bind _ _ (Gives-or_now info.last_heartbeat_at) λ heartbeat _.
          Gives-bind _ _ (Gives-or_now info.updated_at) λ updated _.
            Gives-upsert_worker env _
              (record { own_name = refl; busy = slots-pos _ _; wanted = slots-pos _ _ })

  Gives-note_workers :
      (found : List (Text × WorkerInfo)) → Gives tasks events Any (note_workers env control found)
  unfolding note_workers
  Gives-note_workers [] = Gives-pure _ tt
  Gives-note_workers ((hostname, info) ∷ found) =
      Gives-bind _ _ (Gives-note_worker hostname info) λ _ _. Gives-note_workers found

  Gives-list_workers :
      (status : Option Text) (limit : ℤ) (refresh : Bool)
      → Gives tasks events (λ out. length out ≤ 500) (list_workers env control status limit refresh)
  unfolding list_workers refresh_workers Store.list_workers
  Gives-list_workers status limit refresh =
      Gives-bind _ _
        (Gives-if refresh _ _
          (Gives-bind _ _ (Gives-in_control env control _) λ found _. Gives-note_workers found)
          (Gives-pure tt tt))
        λ _ _. record { at = λ s h. (h, short (clamp_to 500 limit) _ (clamp_to-le 500 limit)) }

module _ {W : Type 0} (env : Env W) (control : WorkerControl W) where
  -- Whatever the control says of the workers, and whatever limit is asked for, the list is returned
  -- without an exception and has at most 500 records; the tasks and the events stay, and the stored
  -- records stay under their own names with at least one slot.
  pub list_workers-Kept :
      (status : Option Text) (limit : ℤ) (refresh : Bool) (a : Api W)
      → All IsSound a.workers
      → (out : List WorkerRecord) × (a' : Api W) × (list_workers env control status limit refresh a
          ≡ (ok out, a'))
        × Kept a.tasks a.events a'
        × (length out ≤ 500)
  list_workers-Kept status limit refresh a h =
      let (out, a', e, k) =
        Triple-returns _ (Gives-list_workers env control status limit refresh) a
          (record { sound = h; same_tasks = refl; same_events = refl }) in
      (out, a', e, k.0, k.1)
