-- ===== src/Api/Contracts/Agreement.antt =====
-- The two services agree: what the entry accepts, the core accepts.
use media_shuttle.Prelude.{
  ℕ, ◌≡◌, refl, ap, ◌∙◌, Bool, true, false, inl, inr, Bool-cases, if◌then◌else◌,
}
use media_shuttle.Py.Text.{Text, str, text_eq, replace}
use media_shuttle.Py.Exec.{ok, ◌>>=◌, pure}
use media_shuttle.Py.Exec.Bind.{>>=-eq-ok, ok->>=}
use media_shuttle.Core.Env.{Env}
use media_shuttle.Core.Contracts
use media_shuttle.Core.Contracts.{
  required, guard, from_result, is_telegram_chat, validate_target, validate_payload,
  validate_task_created_event,
}
use media_shuttle.Api.Model.{CreateTaskRequest}
use media_shuttle.Api.Contracts.{validate_telegram_destination, validate_create_request}
use media_shuttle.Api.Service.{created_event}

guard-eq-ok : {S : Type 0} (b : Bool) (e : Text) (a : S) → (guard b e a).0 ≡ ok tt → b ≡ true
guard-eq-ok true e a h = refl
guard-eq-ok false e a h = cc

module _ {W : Type 0} (env : Env W) {S : Type 0} where
  telegram_agrees :
      {T : Type 0} (destination : Text) (a : S) (s : T)
      → (validate_telegram_destination env destination a).0 ≡ ok tt
      → Contracts.validate_telegram_destination env destination s ≡ (ok tt, s)
  unfolding validate_telegram_destination Contracts.validate_telegram_destination
  telegram_agrees destination a s h =
      let (url, split, chat) = >>=-eq-ok (from_result (env.urlsplit destination)) _ a tt h in
      ok->>= (from_result (env.urlsplit destination)) _ s s url (ap (λ r. (r, s)) split)
      ∙ rw (guard-eq-ok (is_telegram_chat env url) _ a chat) refl

  target_agrees :
      {T : Type 0} (target destination : Text) (a : S) (s : T)
      → ((if text_eq target (str "TELEGRAM")
            then validate_telegram_destination env destination
            else pure tt)
          a).0
        ≡ ok tt
      → validate_target env target destination s ≡ (ok tt, s)
  unfolding validate_target
  target_agrees target destination a s h = elim (Bool-cases (text_eq target (str "TELEGRAM"))) [
    | inl e ↦ rw e (telegram_agrees destination a s (rw e at h))
    | inr e ↦ rw e
  ]

  -- The last of the entry's checks, in the state that it is made in.
  target_checked :
      (request : CreateTaskRequest) (a : S)
      → (validate_create_request env request a).0 ≡ ok tt
      → (b : S) × (((if text_eq request.target (str "TELEGRAM")
              then validate_telegram_destination env request.destination
              else pure tt)
            b).0
          ≡ ok tt)
  unfolding validate_create_request
  target_checked request a h =
      let (_, filled, rest) = >>=-eq-ok _ _ a tt h in
      let (_, known, last) = >>=-eq-ok _ _ _ tt rest in (_, last)

  -- A request that the entry accepts makes an event that the core accepts, if Python reads back
  -- the time that the event carries.
  pub validate_create_request-agrees :
      {T : Type 0} (request : CreateTaskRequest) (task_id key timestamp : Text) (time : ℕ) (a : S)
      (s : T)
      → (validate_create_request env request a).0 ≡ ok tt
      → env.from_iso (replace b'Z' (str "+00:00") timestamp) ≡ ok time
      → validate_task_created_event env (created_event task_id key timestamp request) s ≡ (ok tt, s)
  unfolding validate_task_created_event created_event validate_payload required text_eq ◌>>=◌
  validate_create_request-agrees request task_id key timestamp time a s h dated =
      let (b, checked) = target_checked request a h in
      ok->>= (from_result (env.from_iso (replace b'Z' (str "+00:00") timestamp))) _ s s time
        (ap (λ r. (r, s)) dated)
      ∙ target_agrees request.target request.destination b s checked
