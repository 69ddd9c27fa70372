-- ===== src/Core/Tasks/Failure.antt =====
-- A failed attempt of a task: what is handed to the broker, and what is replied
-- (media-shuttle-core/core/queue/tasks.py, `_route_failure`).
use media_shuttle.Prelude.{
  ◌≡◌, inl, inr, refl, Option, some, List, [], ◌∷◌, ◌++◌, ℤ, lt_int, get_or, Bool-cases,
}
use media_shuttle.Py.Text.{Text}
use media_shuttle.Py.Exec.{Exc, Result, ok, err, Exec, ◌>>=◌}
use media_shuttle.Py.Exec.Triple.{Post, Triple, Triple-pure, Triple-bind}
use media_shuttle.Core.Model.{Event}
use media_shuttle.Core.Queues.{retry_queue_key}
use media_shuttle.Core.Pipeline
use media_shuttle.Core.Pipeline.{PipelineService, Sys, locations_message}
use media_shuttle.Core.Tasks.{
  Broker, Sent, retry, next_event, Node, Reply, retried, gave_up, in_sys, send, max_retries,
  route_failure,
}

abbrev pub Never : {S : Type 0} → Exc → S → Type 0
Never e s = ⊥

module _ {R W : Type 0} (p : PipelineService R W) (broker : Broker W) where
  -- The last message to the broker is a retry for the reason, with what the call of the broker gave.
  abbrev pub Handed : Text → Result (Unit {0}) → List Sent → Type 0
  Handed reason answer sent =
      (before : List Sent) × (again : Event) × (w : W) × (sent
        ≡ before ++ retry (retry_queue_key p.env) again ∷ [])
      × (again.last_error ≡ some reason)
      × ((broker (retry (retry_queue_key p.env) again) w).0 ≡ answer)

  -- A reply that names the reason, or the exception with which the broker refused a retry for it.
  abbrev pub Answered : Text → Result Reply → List Sent → Type 0
  Answered reason (ok (retried t n r)) sent = (r ≡ reason) × Handed reason (ok tt) sent
  Answered reason (ok (gave_up t n r)) sent = r ≡ reason
  Answered reason (ok _) sent = ⊥
  Answered reason (err e) sent = Handed reason (err e) sent

module _ {R W : Type 0} (p : PipelineService R W) where
  Post-in_sys :
      {A : Type 0} (Q : A → Sys R W → Type 0) (E : Exc → Node R W → Type 0) (r : Result A)
      (s : Sys R W) (n : Node R W)
      → Post Q Never r s
      → Post (λ a n. Q a n.sys) E r (record n { sys = s })
  Post-in_sys Q E (ok a) s n h = h
  Post-in_sys Q E (err e) s n h = absurd h

  pub Triple-in_sys :
      {A : Type 0} (P : Sys R W → Type 0) (Q : A → Sys R W → Type 0) (E : Exc → Node R W → Type 0)
      (m : Exec (Sys R W) A)
      → Triple P m Q Never
      → Triple (λ n. P n.sys) (in_sys p m) (λ a n. Q a n.sys) E
  unfolding in_sys
  Triple-in_sys P Q E m tm = record {
    at = λ n h. Post-in_sys Q E (m n.sys).0 (m n.sys).1 n (tm.at n.sys h);
  }

  module _ (broker : Broker W) where
    handed :
        (P : R → Type 0) (reason : Text) (before : List Sent) (again : Event) (w : W)
        (r : Result (Unit {0})) (n : Node R W)
        → n.sent ≡ before ++ retry (retry_queue_key p.env) again ∷ []
        → again.last_error ≡ some reason
        → (broker (retry (retry_queue_key p.env) again) w).0 ≡ r
        → P n.sys.repo
        → Post
            (λ _ n. P n.sys.repo × Handed p broker reason (ok tt) n.sent)
            (λ e n. P n.sys.repo × Handed p broker reason (err e) n.sent)
            r
            n
    handed P reason before again w (ok u) n last named e h = (h, (before, again, w, last, named, e))
    handed P reason before again w (err x) n last named e h =
        (h, (before, again, w, last, named, e))

    Triple-send :
        (P : R → Type 0) (reason : Text) (again : Event)
        → again.last_error ≡ some reason
        → Triple
            (λ n. P n.sys.repo)
            (send p broker (retry (retry_queue_key p.env) again))
            (λ _ n. P n.sys.repo × Handed p broker reason (ok tt) n.sent)
            (λ e n. P n.sys.repo × Handed p broker reason (err e) n.sent)
    unfolding send
    Triple-send P reason again named = record {
      at = λ n h.
          handed P reason n.sent again n.sys.world
            (broker (retry (retry_queue_key p.env) again) n.sys.world).0 _ refl named refl h;
    }

  module _ (broker : Broker W) (limit : ℤ) (configured : max_retries p ≡ ok limit) where
    pub Triple-route_failure :
        (P : R → Type 0) (event : Event) (reason : Text) (task_id : Option Text)
        → Triple
            (λ n. P n.sys.repo)
            (route_failure p broker event reason task_id)
            (λ reply n. P n.sys.repo × Answered p broker reason (ok reply) n.sent)
            (λ e n. P n.sys.repo × Answered p broker reason (err e) n.sent)
    unfolding route_failure ◌>>=◌ in_sys Pipeline.read_clock next_event
    Triple-route_failure P event reason task_id = record {
      at = λ n h. rw configured (elim (Bool-cases (lt_int (get_or event.attempt 0) limit)) [
        | inl more ↦ rw more (
            (Triple-bind _ _
                (Triple-send broker P reason
                  (next_event p event reason task_id (p.env.iso (p.env.now n.sys.world).0)) refl)
                (λ _. Triple-pure _ (λ _ kept. (kept.0, (refl, kept.1))))).at
              _ h)
        | inr done ↦ rw done (h, refl)
      ]);
    }
