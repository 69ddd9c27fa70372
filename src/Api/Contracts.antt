-- ===== src/Api/Contracts.antt =====
-- media-shuttle-api/app/contracts.py: what a request must hold. The test of a chat's address has
-- the same text here as in the core, and is `Core.Contracts.is_telegram_chat`.
pub mod Agreement
use media_shuttle.Prelude.{Bool, not, ◌||◌, List, [], ◌∷◌, ◌++◌, if◌then◌else◌}
use media_shuttle.Py.Text.{Text, str, text_eq, text_in, strip, is_empty}
use media_shuttle.Py.Exec.{Exec, pure, raise, ◌>>=◌, ◌>>◌}
use media_shuttle.Core.Env.{Env}
use media_shuttle.Core.Contracts.{from_result, guard, is_telegram_chat}
use media_shuttle.Api.Model.{CreateTaskRequest}

-- The loop over the required keys, each with its value.
unfoldable pub require_filled : {S : Type 0} → List (Text × Text) → Exec S (Unit {0})
require_filled [] = pure tt
require_filled ((key, value) ∷ rest) =
    let later = require_filled rest in
    if is_empty (strip value) then raise (str "invalid field: " ++ key) else later

module _ {W : Type 0} (env : Env W) where
  unfoldable pub validate_telegram_destination : {S : Type 0} → Text → Exec S (Unit {0})
  unfolding is_telegram_chat
  validate_telegram_destination destination = do
    parsed ← from_result (env.urlsplit destination)
    guard (is_telegram_chat env parsed) (str "invalid field: destination")

  unfoldable pub validate_create_request : {S : Type 0} → CreateTaskRequest → Exec S (Unit {0})
  unfolding require_filled text_in validate_telegram_destination
  validate_create_request data' = do
    require_filled (
        (str "url", data'.url)
        ∷ (str "requester_id", data'.requester_id)
        ∷ (str "target", data'.target)
        ∷ (str "destination", data'.destination)
        ∷ [])
    guard (text_in data'.target (str "RCLONE" ∷ str "TELEGRAM" ∷ [])) (str "invalid field: target")
    if text_eq data'.target (str "TELEGRAM")
        then validate_telegram_destination data'.destination
        else pure tt
