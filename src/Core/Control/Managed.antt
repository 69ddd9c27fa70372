-- ===== src/Core/Control/Managed.antt =====
-- What holds of the managed processes, and which commands start one.
use media_shuttle.Prelude.{
  ℕ, ◌≤◌, ◌≡◌, refl, true, not, inl, inr, Option, none, some, [], ◌∷◌, In, ◌⊎◌, false, arith, All,
  ℤ, at_least_one-pos, Bool-cases, ◌&&◌,
}
use media_shuttle.Py.Text.{Text, str, text_eq, text_in, strip, lower, is_empty}
use media_shuttle.Py.Text.Equality.{text_eq_refl}
use media_shuttle.Py.Dict
use media_shuttle.Py.Dict.{Dict}
use media_shuttle.Py.Dict.Every.{All-put, All-remove}
use media_shuttle.Py.Exec.{Result, ok, err}
use media_shuttle.Core.Env.{Env}
use media_shuttle.Core.Queues.{normalize_owner_node, resolve_owner_node}
use media_shuttle.Core.Control.{
  Processes, ManagedProc, Command, Control, requested_concurrency, allowed_roles, record_of,
  ControlReply, accepted, managed_hostname, shown_action, running_record, stop_slot, started,
  start_slot, perform, locked, apply_worker_control, poll_slot,
}

-- An entry of `_PROCS`: an allowed role, with its own process of at least one slot.
pub record IsOwn (entry : Text × ManagedProc) : Type 0 where
  pub allowed : text_in entry.0 allowed_roles ≡ true
  pub same_role : entry.1.role ≡ entry.0
  pub busy : 1 ≤ entry.1.concurrency

requested_concurrency-pos : (o : Option ℤ) → 1 ≤ requested_concurrency o
unfolding requested_concurrency
requested_concurrency-pos none = omega arith
requested_concurrency-pos (some z) = at_least_one-pos z

module _ {W : Type 0} (env : Env W) (os : Processes W) where
  abbrev pub AllOwn : Control W → Type 0
  AllOwn c = All IsOwn c.procs

  record_of-AllOwn :
      (role : Text) (slot : Option ManagedProc) (code : Option ℤ) (c : Control W)
      → AllOwn c
      → AllOwn (record_of env os role slot code c).1
  unfolding record_of
  record_of-AllOwn role none code c h = h
  record_of-AllOwn role (some slot) none c h = h
  record_of-AllOwn role (some slot) (some code) c h = All-remove IsOwn role c.procs h

  started-AllOwn :
      (shown role : Text) (n : ℕ) (r : Result ℕ × W) (c : Control W)
      → text_in role allowed_roles ≡ true
      → 1 ≤ n
      → AllOwn c
      → AllOwn (started env os shown role n r c).1
  unfolding started
  started-AllOwn shown role n (err e, w) c a b h = h
  started-AllOwn shown role n (ok pid, w) c a b h =
      All-put IsOwn role _ c.procs (record { allowed = a; same_role = refl; busy = b }) h

  perform-AllOwn :
      (action role : Text) (n : ℕ) (slot : Option ManagedProc) (c : Control W)
      → text_in role allowed_roles ≡ true
      → 1 ≤ n
      → AllOwn c
      → AllOwn (perform env os action role n slot c).1
  unfolding perform start_slot stop_slot
  perform-AllOwn action role n none c a b h = elim (Bool-cases (text_eq action (str "status"))) [
    | inl e ↦ rw e h
    | inr e ↦ rw e (started-AllOwn _ role n _ c a b h)
  ]
  perform-AllOwn action role n (some slot) c a b h =
      elim (Bool-cases (text_eq action (str "status"))) [
        | inl e ↦ rw e h
        | inr e ↦ elim (Bool-cases (text_eq action (str "stop"))) [
          | inl f ↦ rw (e, f) (All-remove IsOwn role c.procs h)
          | inr f ↦ elim (Bool-cases (text_eq action (str "start"))) [
            | inl g ↦ rw (e, f, g) h
            | inr g ↦
                rw (e, f, g) (started-AllOwn _ role n _ _ a b (All-remove IsOwn role c.procs h))
          ]
        ]
      ]

  locked-AllOwn :
      (action role : Text) (n : ℕ) (c : Control W)
      → text_in role allowed_roles ≡ true
      → 1 ≤ n
      → AllOwn c
      → AllOwn (locked env os action role n c).1
  unfolding locked running_record
  locked-AllOwn action role n c a b h = perform-AllOwn action role n _ _ a b (
      record_of-AllOwn role (Dict.get role c.procs)
        (poll_slot env os (Dict.get role c.procs) c.world) c h)

  -- If every entry of `_PROCS` is so before a command, every entry stays an entry of an allowed role, that says its own role and at least
  -- one slot, whatever the command asks for and however the start of a process ends.
  pub apply_worker_control-AllOwn :
      (command : Command) (c : Control W)
      → AllOwn c
      → AllOwn (apply_worker_control env os command c).1
  unfolding apply_worker_control
  apply_worker_control-AllOwn command c h =
      let action = lower (strip command.action) in
      let role = lower (strip command.role) in
      elim (Bool-cases (text_in role allowed_roles)) [
        | inr e ↦ rw e h
        | inl e ↦
            elim (Bool-cases (
              not (is_empty (normalize_owner_node (some command.node_id)))
              && not (is_empty (normalize_owner_node (some (resolve_owner_node env))))
              && not (
                  text_eq (normalize_owner_node (some command.node_id))
                    (normalize_owner_node (some (resolve_owner_node env)))))) [
                      | inl f ↦ rw (e, f) h
                      | inr f ↦
                          elim (Bool-cases (
                            text_in action
                              (str "start" ∷ str "stop" ∷ str "restart" ∷ str "status" ∷ []))) [
                                | inr g ↦ rw (e, f, g) h
                                | inl g ↦
                                    rw (e, f, g)
                                      (locked-AllOwn action role _ c e
                                        (requested_concurrency-pos command.concurrency) h)
                              ]
                    ]
      ]

  -- A process of the role was started: the reply says so, and it is recorded.
  abbrev pub IsStarted : Text → Text → ℕ → ℕ → W → Control W → ControlReply × Control W → Type 0
  IsStarted shown role n pid w c after =
      (after.0 ≡ accepted shown role (str "starting") (some pid) (some n))
      × (after.1.procs
          ≡ Dict.put role
              (record { role = role; proc = pid; concurrency = n; started_at = os.time w }) c.procs)
      × (after.1.world ≡ w)

  locked-IsStarted :
      (action role : Text) (n pid : ℕ) (w : W) (c : Control W)
      → text_eq action (str "status") ≡ false
      → Dict.get role c.procs ≡ none
      → os.start role n (managed_hostname env os role) c.world ≡ (ok pid, w)
      → IsStarted (shown_action env os action) role n pid w c (locked env os action role n c)
  unfolding locked running_record record_of perform start_slot started
  locked-IsStarted action role n pid w c other nobody runs =
      rw (nobody, other, runs) (refl, refl, refl)

  -- The command names no node, or this one.
  abbrev pub IsHere : Text → Type 0
  IsHere node_id =
      (is_empty (normalize_owner_node (some node_id)) ≡ true)
      ⊎ (normalize_owner_node (some node_id) ≡ normalize_owner_node (some (resolve_owner_node env)))

  not_elsewhere :
      (node_id : Text)
      → IsHere node_id
      → (not (is_empty (normalize_owner_node (some node_id)))
          && not (is_empty (normalize_owner_node (some (resolve_owner_node env))))
          && not (
              text_eq
                (normalize_owner_node (some node_id))
                (normalize_owner_node (some (resolve_owner_node env)))))
        ≡ false
  not_elsewhere node_id (inl blank) = ground (arith, blank)
  not_elsewhere node_id (inr own) =
      rw (own, text_eq_refl (normalize_owner_node (some (resolve_owner_node env)))) (ground arith)

  starting-known :
      (action : Text)
      → In action (str "start" ∷ str "stop" ∷ str "restart" ∷ [])
      → (text_eq action (str "status") ≡ false)
        × (text_in action (str "start" ∷ str "stop" ∷ str "restart" ∷ str "status" ∷ []) ≡ true)
  unfolding text_eq text_in
  starting-known action (inl e) = rw e (refl, refl)
  starting-known action (inr (inl e)) = rw e (refl, refl)
  starting-known action (inr (inr (inl e))) = rw e (refl, refl)
  starting-known action (inr (inr (inr h))) = elim h [ ]

  -- For an allowed role of which no process is recorded, a start, a restart and a stop as well, when
  -- the command names no other node and the process can be started, start a process of the role with
  -- the concurrency asked for: the reply says that it is starting, and it is recorded.
  pub apply_worker_control-IsStarted :
      (command : Command) (c : Control W) (pid : ℕ) (w : W)
      → text_in (lower (strip command.role)) allowed_roles ≡ true
      → IsHere command.node_id
      → In (lower (strip command.action)) (str "start" ∷ str "stop" ∷ str "restart" ∷ [])
      → Dict.get (lower (strip command.role)) c.procs ≡ none
      → os.start
          (lower (strip command.role))
          (requested_concurrency command.concurrency)
          (managed_hostname env os (lower (strip command.role)))
          c.world
        ≡ (ok pid, w)
      → IsStarted
          (shown_action env os (lower (strip command.action)))
          (lower (strip command.role))
          (requested_concurrency command.concurrency)
          pid
          w
          c
          (apply_worker_control env os command c)
  unfolding apply_worker_control
  apply_worker_control-IsStarted command c pid w allowed here asked nobody runs =
      let (other, known) = starting-known (lower (strip command.action)) asked in
      rw (allowed, not_elsewhere command.node_id here, known)
        (locked-IsStarted (lower (strip command.action)) _ _ pid w c other nobody runs)
