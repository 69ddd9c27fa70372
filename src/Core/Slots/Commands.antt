-- ===== src/Core/Slots/Commands.antt =====
-- The worker that the supervisor starts for a slot, and what it reports of that slot.
use media_shuttle.Prelude.{
  ℕ, ℤ, ◌≡◌, ◌≤◌, ◌==◌, refl, List, Option, none, some, [], ◌∷◌, at_least_one, at_least_one-pos,
}
use media_shuttle.Py.Text.{Text, str, strip, lower, split, strip_items}
use media_shuttle.Py.Text.Search.{after_prefix}
use media_shuttle.Py.Number.{int_or_error, show_nat}
use media_shuttle.Py.Exec.{Result, ok, err, map_result}
use media_shuttle.Core.Env.{Env}
use media_shuttle.Core.Slots.{
  Slot, Overrides, worker_concurrency, worker_hostname, worker_queues, slot_of, worker_slot,
  started_concurrency, celery_command, start_command,
}

-- No keyword argument.
abbrev pub no_overrides : Overrides
no_overrides = record { concurrency = none; hostname = none; queues = none }

-- The value of an option `name=value` of a command line, the first one.
unfoldable pub option_value : Text → List Text → Option Text
unfolding after_prefix
option_value name [] = none
option_value name (word ∷ words) =
    let later = option_value name words in
    elim (after_prefix (λ a b. a == b) name word) [ none ↦ later | some value ↦ some value ]

-- A worker's command line for a slot: its name, its queues and its concurrency.
pub record IsFor (slot : Slot) (command : List Text) : Type 0 where
  pub named : option_value (str "--hostname=") command ≡ some slot.hostname
  pub reads : option_value (str "--queues=") command ≡ some slot.queues_csv
  pub listed : slot.queues ≡ strip_items (split b',' slot.queues_csv)
  pub sized : option_value (str "--concurrency=") command ≡ some (show_nat slot.concurrency)
  pub busy : 1 ≤ slot.concurrency

-- Both raise the same, or the command is one for the slot.
abbrev pub Starts : Result (List Text) → Result Slot → Type 0
Starts (ok command) (ok slot) = IsFor slot command
Starts (err e) (err e') = e ≡ e'
Starts (ok command) (err e) = ⊥
Starts (err e) (ok slot) = ⊥

module _ {W : Type 0} (env : Env W) where
  celery_command-IsFor :
      (role : Text) (n : ℕ)
      → 1 ≤ n
      → IsFor
          (slot_of env role n)
          (celery_command env role n (worker_hostname env role) (worker_queues env role))
  unfolding option_value after_prefix celery_command slot_of
  celery_command-IsFor role n busy = record {
    named = refl;
    reads = refl;
    listed = refl;
    sized = refl;
    busy = busy;
  }

  -- For a role without white space round it and in lower case, the command line that starts a
  -- worker names in its options the name, the queues and the concurrency, at least one, of the role's
  -- slot, which are reported to the registry, and it raises what the slot raises.
  pub start_command-worker_slot :
      (c : ℕ) (t : Text)
      → lower (strip (c ∷ t)) ≡ c ∷ t
      → Starts (start_command env (some (c ∷ t)) no_overrides) (worker_slot env (c ∷ t))
  unfolding start_command worker_slot started_concurrency worker_concurrency
  start_command-worker_slot c t plain = rw plain (same (int_or_error _ _))
    where
      same :
          (n : Result ℤ)
          → Starts
              (map_result
                (λ k.
                  celery_command env
                    (c ∷ t)
                    k
                    (worker_hostname env (c ∷ t))
                    (worker_queues env (c ∷ t)))
                (map_result at_least_one n))
              (map_result (slot_of env (c ∷ t)) (map_result at_least_one n))
      same (ok k) = celery_command-IsFor (c ∷ t) (at_least_one k) (at_least_one-pos k)
      same (err e) = refl
