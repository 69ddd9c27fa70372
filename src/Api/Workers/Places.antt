-- ===== src/Api/Workers/Places.antt =====
-- The service of media-shuttle-api names a managed worker and a node's control queue as the core of
-- that node does (queue/worker_control_runtime.py, queue/worker_process.py).
use media_shuttle.Prelude.{
  ◌≡◌, refl, sym, ap, ◌∙◌, true, false, inl, inr, some, [], ◌∷◌, In, Bool-cases, ℤ,
}
use mathlib.Core.Bool.{false≢true}
use media_shuttle.Py.Text.{Text, str, strip, is_empty, has_char}
use media_shuttle.Core.Env.{Env}
use media_shuttle.Core.Queues.{
  normalize_owner_node, resolve_owner_node, worker_control_queue_prefix,
  generate_control_queue_names,
}
use media_shuttle.Core.Slots.Reads.{Reads, IsUnset, control-Reads}
use media_shuttle.Core.Control.{Processes, managed_hostname}
use media_shuttle.Api.Control.{ControlMessage, control_queue, control_message}
use media_shuttle.Api.Workers.{managed_worker_hostname}

is_empty→eq : (s : Text) → is_empty s ≡ true → s ≡ []
is_empty→eq [] h = refl
is_empty→eq (c ∷ s) h = absurd (false≢true h)

normalize_owner_node-empty : normalize_owner_node (some []) ≡ []
unfolding normalize_owner_node strip
normalize_owner_node-empty = refl

module _ {W : Type 0} (env : Env W) where
  -- The name of a node that its environment gives.
  resolve_owner_node_given :
      (node : Text)
      → env.getenv (str "MEDIA_SHUTTLE_NODE_ID") ≡ some node
      → is_empty (strip node) ≡ false
      → resolve_owner_node env ≡ normalize_owner_node (some (strip node))
  unfolding resolve_owner_node
  resolve_owner_node_given node given named = rw (given, named) refl

  -- The normal form of a given name is empty when the name is, and else is the node's own.
  normal_name :
      (node : Text)
      → env.getenv (str "MEDIA_SHUTTLE_NODE_ID") ≡ some node
      → is_empty (normalize_owner_node (some (strip node))) ≡ false
      → resolve_owner_node env ≡ normalize_owner_node (some (strip node))
  normal_name node given named = elim (Bool-cases (is_empty (strip node))) [
    | inr e ↦ resolve_owner_node_given node given e
    | inl e ↦ absurd (
        false≢true (
          sym named
          ∙ (ap (λ s. is_empty (normalize_owner_node (some s))) (is_empty→eq (strip node) e)
              ∙ ap is_empty normalize_owner_node-empty)))
  ]

  -- On a node whose environment names it, the core starts the managed worker of a role under the
  -- name under which the service keeps it, when the normal form of the node's name is not empty.
  pub managed_hostname-agrees :
      (os : Processes W) (role node : Text)
      → env.getenv (str "MEDIA_SHUTTLE_NODE_ID") ≡ some node
      → is_empty (normalize_owner_node (some (strip node))) ≡ false
      → managed_hostname env os role ≡ managed_worker_hostname role (strip node)
  unfolding managed_hostname managed_worker_hostname
  managed_hostname-agrees os role node given named = rw (normal_name node given named, named) refl

  -- What the service sends for a command to a node.
  abbrev pub node_message :
      (task_name node role action : Text) → ℤ → (queue requested_at : Text) → ControlMessage
  node_message task_name node role action concurrency queue requested_at =
      control_message env (worker_control_queue_prefix env) task_name (strip node) role action
        concurrency queue requested_at

  listed :
      (task_name node role action : Text) (concurrency : ℤ) (queue requested_at : Text)
      → env.getenv (str "MEDIA_SHUTTLE_NODE_ID") ≡ some node
      → is_empty (normalize_owner_node (some (strip node))) ≡ false
      → is_empty (strip queue) ≡ true
      → let message = node_message task_name node role action concurrency queue requested_at in
        In message.queue (generate_control_queue_names env)
        × (message.node_id ≡ resolve_owner_node env)
  unfolding control_message generate_control_queue_names control_queue
  listed task_name node role action concurrency queue requested_at given named unset =
      let own = normal_name node given named in
      rw (own, named, is_empty→eq (strip queue) unset) (inr (inl refl), refl)

  -- A command for such a node that asks for no queue of its own is sent to a queue that the control
  -- worker of the node reads, if no variable of the node's environment replaces the queues of that
  -- worker and there is no comma in the queue's name; it carries the name that the node resolves.
  pub control_message-Reads :
      (task_name node role action : Text) (concurrency : ℤ) (queue requested_at : Text)
      → env.getenv (str "MEDIA_SHUTTLE_NODE_ID") ≡ some node
      → is_empty (normalize_owner_node (some (strip node))) ≡ false
      → is_empty (strip queue) ≡ true
      → IsUnset env (str "control")
      → has_char b',' (node_message task_name node role action concurrency queue requested_at).queue
        ≡ false
      → let message = node_message task_name node role action concurrency queue requested_at in
        Reads env (str "control") message.queue × (message.node_id ≡ resolve_owner_node env)
  control_message-Reads task_name node role action concurrency queue requested_at given named
        none_asked unset plain =
      let (known, own) =
        listed task_name node role action concurrency queue requested_at given named none_asked in
      (control-Reads env _ unset plain known, own)
