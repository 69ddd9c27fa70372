-- ===== src/Api/Workers/Gives.antt =====
-- What an action of media-shuttle-api/app/service.py on workers keeps, with one rule for each way to
-- build such an action.
use media_shuttle.Prelude.{
  ◌≤◌, ◌≡◌, refl, Bool, true, false, Option, none, some, List, arith, All, if◌then◌else◌,
}
use media_shuttle.Py.Text.{Text}
use media_shuttle.Py.Dict.{Dict}
use media_shuttle.Py.Dict.Every.{All-put, All-modify, All-get, OfEntry}
use media_shuttle.Py.Exec.{Exec, pure, ◌>>=◌}
use media_shuttle.Py.Exec.Triple.{Triple, Triple-pure, Triple-bind, Triple-given}
use media_shuttle.Core.Env.{Env}
use media_shuttle.Core.Model.{Event}
use media_shuttle.Api.Model.{TaskRecord, WorkerRecord}
use media_shuttle.Api.Control.{WorkerControl}
use media_shuttle.Api.Store.{Api, utc_now_iso, get_worker, upsert_worker, patch_worker}
use media_shuttle.Api.Workers.{in_control, blank_worker, new_worker, or_new, known_worker}

-- An entry of the worker repository: a record under its own name, of at least one slot.
pub record IsSound (entry : Text × WorkerRecord) : Type 0 where
  pub own_name : entry.1.hostname ≡ entry.0
  pub busy : 1 ≤ entry.1.concurrency
  pub wanted : 1 ≤ entry.1.desired_concurrency

abbrev pub Any : {A : Type 0} → A → Type 0
Any a = Unit {0}

-- Sound workers, and the tasks and events as given.
pub record Kept {W : Type 0} (tasks : Dict TaskRecord) (events : List Event) (a : Api W)
    : Type 0 where
  pub sound : All IsSound a.workers
  pub same_tasks : a.tasks ≡ tasks
  pub same_events : a.events ≡ events

module _ {W : Type 0} (tasks : Dict TaskRecord) (events : List Event) where
  -- The action returns a value with `V`, and keeps.
  abbrev pub Gives : {A : Type 0} → (A → Type 0) → Exec (Api W) A → Type 0
  Gives V m = Triple (Kept tasks events) m (λ a s. Kept tasks events s × V a) (λ _ _. ⊥)

module _ {W : Type 0} {tasks : Dict TaskRecord} {events : List Event} where
  pub Gives-pure :
      {A : Type 0} {V : A → Type 0} (a : A) → V a → Gives {W = W} tasks events V (pure a)
  Gives-pure a v = Triple-pure a (λ s h. (h, v))

  pub Gives-bind :
      {A B : Type 0} {V : A → Type 0} {U : B → Type 0} (m : Exec (Api W) A) (f : A → Exec (Api W) B)
      → Gives tasks events V m
      → ((a : A) → V a → Gives tasks events U (f a))
      → Gives tasks events U (m >>= f)
  Gives-bind m f g h = Triple-bind m f g (λ a. Triple-given (f a) (h a))

  pub Gives-if :
      {A : Type 0} {V : A → Type 0} (b : Bool) (m n : Exec (Api W) A)
      → Gives tasks events V m
      → Gives tasks events V n
      → Gives tasks events V (if b then m else n)
  Gives-if true m n g h = g
  Gives-if false m n g h = h

module _ {W : Type 0} (env : Env W) (control : WorkerControl W) {tasks : Dict TaskRecord}
    {events : List Event} where
  pub Gives-in_control :
      {A : Type 0} (f : W → A × W) → Gives tasks events Any (in_control env control f)
  Gives-in_control f = record {
    at = λ s h.
        (record { sound = h.sound; same_tasks = h.same_tasks; same_events = h.same_events }, tt);
  }

module _ {W : Type 0} (env : Env W) {tasks : Dict TaskRecord} {events : List Event} where
  pub Gives-utc_now_iso : Gives tasks events Any (utc_now_iso env)
  unfolding utc_now_iso
  Gives-utc_now_iso = record {
    at = λ s h.
        (record { sound = h.sound; same_tasks = h.same_tasks; same_events = h.same_events }, tt);
  }

  pub Gives-get_worker :
      (name : Text) → Gives tasks events (OfEntry IsSound name) (get_worker env name)
  unfolding get_worker
  Gives-get_worker name = record { at = λ s h. (h, All-get IsSound name s.workers h.sound) }

  pub Gives-upsert_worker :
      (r : WorkerRecord) → IsSound (r.hostname, r) → Gives tasks events Any (upsert_worker env r)
  unfolding upsert_worker
  Gives-upsert_worker r k = record {
    at = λ s h. (
      record {
        sound = All-put IsSound r.hostname r s.workers k h.sound;
        same_tasks = h.same_tasks;
        same_events = h.same_events;
      },
      tt,
    );
  }

  pub Gives-patch_worker :
      (name : Text) (f : WorkerRecord → WorkerRecord)
      → ((r : WorkerRecord) → IsSound (name, r) → IsSound (name, f r))
      → Gives tasks events Any (patch_worker env name f)
  unfolding patch_worker
  Gives-patch_worker name f k = record {
    at = λ s h. (
      record {
        sound = All-modify IsSound name f s.workers k h.sound;
        same_tasks = h.same_tasks;
        same_events = h.same_events;
      },
      tt,
    );
  }

module _ {W : Type 0} (env : Env W) (control : WorkerControl W) {tasks : Dict TaskRecord}
    {events : List Event} where
  pub Gives-new_worker :
      (name : Text) → Gives tasks events (λ r. IsSound (name, r)) (new_worker env control name)
  unfolding new_worker blank_worker
  Gives-new_worker name = Gives-bind _ _ (Gives-utc_now_iso env) λ t1 _.
      Gives-bind _ _ (Gives-utc_now_iso env) λ t2 _.
        Gives-bind _ _ (Gives-utc_now_iso env) λ t3 _.
          Gives-pure _ (record { own_name = refl; busy = omega arith; wanted = omega arith })

  pub Gives-or_new :
      (name : Text) (o : Option WorkerRecord)
      → OfEntry IsSound name o
      → Gives tasks events (λ r. IsSound (name, r)) (or_new env control name o)
  unfolding or_new
  Gives-or_new name none h = Gives-new_worker name
  Gives-or_new name (some r) h = Gives-pure r h

  pub Gives-known_worker :
      (name : Text) → Gives tasks events (λ r. IsSound (name, r)) (known_worker env control name)
  unfolding known_worker
  Gives-known_worker name = Gives-bind _ _ (Gives-get_worker env name) (Gives-or_new name)
