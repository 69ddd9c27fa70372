-- ===== src/Core/Runtime/Drain.antt =====
-- The loop of the runtime ends, and settles each event once.
use media_shuttle.Prelude.{
  ℕ, zero, suc, ◌+◌, ◌-◌, ◌≤◌, ◌<◌, ◌≡◌, refl, Option, none, some, List, [], ◌∷◌, ◌++◌, arith,
  length, length-append, ℤ, pos, negsuc, get_or, Bool-cases, inl, inr,
}
use media_shuttle.Py.Text.{Text, str, text_eq}
use media_shuttle.Py.Exec.{Result, ok, err}
use media_shuttle.Core.Model.{Event, TaskRecord, status_value}
use media_shuttle.Core.Pipeline.{PipelineService, Sys}
use media_shuttle.Core.Service.{handle_event}
use media_shuttle.Core.Tasks.{next_event}
use media_shuttle.Core.Runtime.{
  RuntimeConfig, Runtime, Reply, retried, route_failure, settle, process_event, process_one,
  consume_n,
}

-- How often an event can still be taken from a queue.
abbrev pub tries : ℤ → Event → ℕ
tries (pos limit) e = suc (limit - get_or e.attempt 0)
tries (negsuc limit) e = 1

abbrev pub total_tries : ℤ → List Event → ℕ
total_tries limit [] = 0
total_tries limit (e ∷ es) = tries limit e + total_tries limit es

total_tries-append :
    (limit : ℤ) (es fs : List Event)
    → total_tries limit (es ++ fs) ≡ total_tries limit es + total_tries limit fs
total_tries-append limit [] fs = omega arith
total_tries-append limit (e ∷ es) fs = omega (arith, total_tries-append limit es fs)

-- A reply that ends an event: no retry was queued for it.
abbrev pub is_final : Reply → ℕ
is_final (retried t n r) = 0
is_final _ = 1

abbrev pub count_final : List Reply → ℕ
count_final [] = 0
count_final (r ∷ rs) = is_final r + count_final rs

module _ {R W : Type 0} (p : PipelineService R W) (config : RuntimeConfig) where
  abbrev pub pending : Runtime R W → ℕ
  pending rt = length rt.retry + length rt.created

  abbrev pub budget : Runtime R W → ℕ
  budget rt = total_tries config.max_retries rt.retry + total_tries config.max_retries rt.created

  -- One event is taken up: its reply is final, or one event with one try less is queued.
  record IsStep (e : Event) (before : Runtime R W) (r : Reply) (after : Runtime R W) : Type 0 where
    events : pending after + is_final r ≡ pending before + 1
    less : budget after + 1 ≤ budget before + tries config.max_retries e

  route_failure-IsStep :
      (e : Event) (reason : Text) (task_id : Option Text) (rt : Runtime R W)
      → IsStep e rt
          (route_failure p config e reason task_id rt).0
          (route_failure p config e reason task_id rt).1
  unfolding route_failure next_event
  route_failure-IsStep e reason task_id rt =
      let base = next_event p e reason task_id (p.env.iso (p.env.now rt.sys.world).0) in
      let longer : length (rt.retry ++ base ∷ []) ≡ length rt.retry + 1 =
        length-append rt.retry (base ∷ []) in
      let more : total_tries config.max_retries (rt.retry ++ base ∷ [])
          ≡ total_tries config.max_retries rt.retry + (tries config.max_retries base + 0) =
        total_tries-append config.max_retries rt.retry (base ∷ []) in
      record { events = ground arith; less = ground arith }

  settle-IsStep :
      (e : Event) (result : Result TaskRecord) (rt : Runtime R W)
      → IsStep e rt (settle p config e result rt).0 (settle p config e result rt).1
  unfolding settle
  settle-IsStep e (err reason) rt = route_failure-IsStep e reason e.task_id rt
  settle-IsStep e (ok t) rt = elim (Bool-cases (text_eq (status_value t.status) (str "FAILED"))) [
    | inl bad ↦ rw bad (route_failure-IsStep e t.message (some t.task_id) rt)
    | inr good ↦ rw good (record { events = omega arith; less = ground arith })
  ]

  process_event-IsStep :
      (e : Event) (rt : Runtime R W)
      → IsStep e rt (process_event p config e rt).0 (process_event p config e rt).1
  unfolding process_event
  process_event-IsStep e rt =
      let (result, sys) = handle_event p e rt.sys in
      let step = settle-IsStep e result (record rt { sys = sys }) in
      record { events = step.events; less = step.less }

  -- What one turn of the loop does, by its answer.
  abbrev Turn : Runtime R W → Option Reply → Runtime R W → Type 0
  Turn before none after = (pending before ≡ 0) × (pending after ≡ 0)
  Turn before (some r) after =
      (pending after + is_final r ≡ pending before) × (budget after < budget before)

  IsStep→Turn :
      (e : Event) (rt before : Runtime R W) (r : Reply) (after : Runtime R W)
      → IsStep e rt r after
      → pending before ≡ pending rt + 1
      → budget before ≡ budget rt + tries config.max_retries e
      → Turn before (some r) after
  IsStep→Turn e rt before r after step more dearer =
      (omega (arith, step.events), omega (arith, step.less))

  turn :
      (sys : Sys R W) (created retry : List Event)
      → Turn
          (record { sys = sys; created = created; retry = retry })
          (process_one p config (record { sys = sys; created = created; retry = retry })).0
          (process_one p config (record { sys = sys; created = created; retry = retry })).1
  unfolding process_one
  turn sys [] [] = (refl, refl)
  turn sys (e ∷ es) [] =
      let rt : Runtime R W = record { sys = sys; created = es; retry = [] } in
      IsStep→Turn e rt (record { sys = sys; created = e ∷ es; retry = [] }) _ _
        (process_event-IsStep e rt) (omega arith) (omega arith)
  turn sys created (e ∷ es) =
      let rt : Runtime R W = record { sys = sys; created = created; retry = es } in
      IsStep→Turn e rt (record { sys = sys; created = created; retry = e ∷ es }) _ _
        (process_event-IsStep e rt) (omega arith) (omega arith)

  process_one-Turn :
      (rt : Runtime R W) → Turn rt (process_one p config rt).0 (process_one p config rt).1
  process_one-Turn rt = turn rt.sys rt.created rt.retry

  -- What a number of turns does: events are neither lost nor doubled, and the turns are bounded.
  record IsShare (steps : ℕ) (before : Runtime R W) (replies : List Reply) (after : Runtime R W)
      : Type 0 where
    events : pending after + count_final replies ≡ pending before
    bounded : budget after + length replies ≤ budget before
    enough : budget before ≤ steps → pending after ≡ 0

  no_tries : (limit : ℤ) (es : List Event) → total_tries limit es ≡ 0 → length es ≡ 0
  no_tries limit [] h = refl
  no_tries (pos limit) (e ∷ es) h = absurd (omega arith)
  no_tries (negsuc limit) (e ∷ es) h = absurd (omega arith)

  nothing_left : (rt : Runtime R W) → budget rt ≡ 0 → pending rt ≡ 0
  nothing_left rt h =
      let retries : length rt.retry ≡ 0 = no_tries config.max_retries rt.retry (omega arith) in
      let created : length rt.created ≡ 0 = no_tries config.max_retries rt.created (omega arith) in
      omega arith

  abbrev add_reply :
      Option Reply → List Reply × Runtime R W → Runtime R W → List Reply × Runtime R W
  add_reply o rest rt' = elim o [ none ↦ ([], rt') | some r ↦ (r ∷ rest.0, rest.1) ]

  IsShare-after :
      (steps : ℕ) (rt rt' : Runtime R W) (o : Option Reply) (rest : List Reply × Runtime R W)
      → Turn rt o rt'
      → IsShare steps rt' rest.0 rest.1
      → (o ≡ none → rt' ≡ rt)
      → IsShare (suc steps) rt (add_reply o rest rt').0 (add_reply o rest rt').1
  IsShare-after steps rt rt' none rest turn share same = record {
    events = omega (arith, turn.0, turn.1);
    bounded = rw (same refl) (omega arith);
    enough = λ h. turn.1;
  }
  IsShare-after steps rt rt' (some r) rest turn share same = record {
    events = omega (arith, turn.0, share.events);
    bounded = omega (arith, turn.1, share.bounded);
    enough = λ h. share.enough (omega (arith, turn.1));
  }

  idle : (rt : Runtime R W) → (process_one p config rt).0 ≡ none → (process_one p config rt).1 ≡ rt
  unfolding process_one
  idle rt = idle_at rt.sys rt.created rt.retry
    where
      idle_at :
          (sys : Sys R W) (created retry : List Event)
          → (process_one p config (record { sys = sys; created = created; retry = retry })).0 ≡ none
          → (process_one p config (record { sys = sys; created = created; retry = retry })).1
            ≡ record { sys = sys; created = created; retry = retry }
      idle_at sys [] [] h = refl
      idle_at sys (e ∷ es) [] h = cc
      idle_at sys created (e ∷ es) h = cc

  consume_n-IsShare :
      (steps : ℕ) (rt : Runtime R W)
      → IsShare steps rt (consume_n p config steps rt).0 (consume_n p config steps rt).1
  unfolding consume_n
  consume_n-IsShare zero rt = record {
    events = omega arith;
    bounded = omega arith;
    enough = λ h. nothing_left rt (omega arith);
  }
  consume_n-IsShare (suc steps) rt =
      let (o, rt') = process_one p config rt in
      IsShare-after steps rt rt' o (consume_n p config steps rt') (process_one-Turn rt)
        (consume_n-IsShare steps rt') (idle rt)

  -- The loop ends: as many turns as the queued events have tries left empty both queues, whatever
  -- the tasks do; each queued event gets exactly one final reply (succeeded or given up), and the
  -- turns that were needed are no more than those tries.
  pub consume_n-drains :
      (steps : ℕ) (rt : Runtime R W)
      → budget rt ≤ steps
      → (pending (consume_n p config steps rt).1 ≡ 0)
        × (count_final (consume_n p config steps rt).0 ≡ pending rt)
        × (length (consume_n p config steps rt).0 ≤ budget rt)
  consume_n-drains steps rt h =
      let share = consume_n-IsShare steps rt in
      let empty = share.enough h in
      (empty, omega (arith, share.events), omega (arith, share.bounded))
