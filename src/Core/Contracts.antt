-- ===== src/Core/Contracts.antt =====
-- media-shuttle-core/core/queue/contracts.py: what an event must hold before the core acts on it.
use media_shuttle.Prelude.{
  ℕ, ◌==◌, Bool, false, not, ◌&&◌, ◌||◌, Option, none, some, List, [], ◌∷◌, ◌++◌, leb, length,
  all_of, is_some, if◌then◌else◌,
}
use media_shuttle.Py.Text.{
  Text, str, text_eq, strip, strip_char, has_char, replace, is_empty, in_range,
}
use media_shuttle.Py.Exec.{Result, Exec, Exc, pure, raise, ◌>>=◌, ◌>>◌}
use media_shuttle.Core.Env.{Env, Url}
use media_shuttle.Core.Model.{Event, EventPayload}

-- The rest of a check that gave its result in advance.
abbrev pub from_result : {S A : Type 0} → Result A → Exec S A
from_result r s = (r, s)

-- `guard b e`: raises `e` unless `b` holds.
abbrev pub guard : {S : Type 0} → Bool → Exc → Exec S (Unit {0})
guard b e = if b then pure tt else raise e

-- `_required`: the fields in order, each with whether the dictionary has it.
unfoldable pub required : {S : Type 0} → List (Text × Bool) → Exec S (Unit {0})
required [] = pure tt
required ((name, present) ∷ rest) =
    let later = required rest in if present then later else raise (str "missing field: " ++ name)

-- `d[name]`
abbrev pub index : {S A : Type 0} → Text → Option A → Exec S A
index name (some a) = pure a
index name none = raise (str "'" ++ (name ++ str "'"))

-- `[A-Za-z0-9_]`
unfoldable pub is_word : ℕ → Bool
is_word c = in_range b'A' b'Z' c || in_range b'a' b'z' c || in_range b'0' b'9' c || c == b'_'

-- `@[A-Za-z0-9_]{4,}`
unfoldable pub is_chat_username : Text → Bool
unfolding is_word
is_chat_username [] = false
is_chat_username (c ∷ s) = c == b'@' && leb 4 (length s) && all_of is_word s

module _ {W : Type 0} (env : Env W) where
  -- `\d+`
  unfoldable pub is_digits : Text → Bool
  is_digits s = not (is_empty s) && all_of env.is_decimal s

  -- `-?\d+`
  unfoldable pub is_chat_id : Text → Bool
  unfolding is_digits
  is_chat_id [] = false
  is_chat_id (c ∷ s) = if c == b'-' then is_digits s else is_digits (c ∷ s)

  -- The test that `_validate_telegram_destination` makes of the address's parts.
  unfoldable pub is_telegram_chat : Url → Bool
  unfolding text_eq strip has_char is_chat_id is_chat_username
  is_telegram_chat parsed =
      let chat_ref = strip (env.unquote (strip_char b'/' parsed.path)) in
      text_eq parsed.scheme (str "tg")
      && text_eq parsed.netloc (str "chat")
      && not (is_empty chat_ref)
      && not (has_char b'/' chat_ref)
      && (is_chat_id chat_ref || is_chat_username chat_ref)

  unfoldable pub validate_telegram_destination : {S : Type 0} → Text → Exec S (Unit {0})
  unfolding is_telegram_chat
  validate_telegram_destination destination = do
    parsed ← from_result (env.urlsplit destination)
    guard (is_telegram_chat parsed) (str "invalid telegram destination")

  unfoldable pub validate_target : {S : Type 0} → Text → Text → Exec S (Unit {0})
  unfolding text_eq validate_telegram_destination
  validate_target target destination =
      if text_eq target (str "TELEGRAM") then validate_telegram_destination destination else pure tt

  unfoldable pub validate_payload : {S : Type 0} → EventPayload → Exec S (Unit {0})
  unfolding required validate_target
  validate_payload payload = do
    required (
        (str "url", is_some payload.url)
        ∷ (str "requester_id", is_some payload.requester_id)
        ∷ (str "target", is_some payload.target)
        ∷ (str "destination", is_some payload.destination)
        ∷ [])
    target ← index (str "target") payload.target
    destination ← index (str "destination") payload.destination
    validate_target target destination

  unfoldable pub validate_task_created_event : {S : Type 0} → Event → Exec S (Unit {0})
  unfolding required validate_payload
  validate_task_created_event event = do
    required (
        (str "spec_version", is_some event.spec_version)
        ∷ (str "task_id", is_some event.task_id)
        ∷ (str "task_type", is_some event.task_type)
        ∷ (str "idempotency_key", is_some event.idempotency_key)
        ∷ (str "created_at", is_some event.created_at)
        ∷ (str "payload", is_some event.payload)
        ∷ [])
    spec_version ← index (str "spec_version") event.spec_version
    guard (text_eq spec_version (str "task.created.v1")) (str "invalid spec_version")
    task_type ← index (str "task_type") event.task_type
    guard (text_eq task_type (str "parse_link")) (str "invalid task_type")
    created_at ← index (str "created_at") event.created_at
    from_result (env.from_iso (replace b'Z' (str "+00:00") created_at))
    payload ← index (str "payload") event.payload
    validate_payload payload
