-- ===== src/Core/Uploads/Destinations.antt =====
-- The destinations that the upload takes are those that the entry of a task lets through.
use media_shuttle.Prelude.{◌≡◌, ◌↔◌, refl, Bool, true, false, not, ◌&&◌, ◌||◌, ◌∷◌, ℕ}
use media_shuttle.Py.Text.{Text, str, strip, strip_char, has_char, text_eq, is_empty}
use media_shuttle.Py.Exec.{Result, ok, err, pure, ◌>>=◌, ◌>>◌}
use media_shuttle.Core.Env.{Env, Url}
use media_shuttle.Core.Contracts.{
  from_result, guard, is_chat_id, is_chat_username, is_telegram_chat, validate_telegram_destination,
}
use media_shuttle.Core.Uploads.Telegram.{parse_telegram_destination}

-- Checks one after the other, with an exception for each, let through what one check of all does.
guards-agree :
    {S : Type 0} (a b c d e : Bool) (m m₁ m₂ m₃ m₄ chat : Text) (s : S)
    → ((guard (a && b && c && d && e) m s).0 ≡ ok tt) ↔ (
        (x : Text) × (((do guard (a && b) m₁; guard c m₂; guard d m₃; guard e m₄; pure chat) s).0
          ≡ ok x))
unfolding ◌>>=◌
guards-agree true true true true true m m₁ m₂ m₃ m₄ chat s = (λ h. (chat, refl), λ h. refl)
guards-agree false b c d e m m₁ m₂ m₃ m₄ chat s = (λ h. cc h, λ h. cc h.1)
guards-agree true false c d e m m₁ m₂ m₃ m₄ chat s = (λ h. cc h, λ h. cc h.1)
guards-agree true true false d e m m₁ m₂ m₃ m₄ chat s = (λ h. cc h, λ h. cc h.1)
guards-agree true true true false e m m₁ m₂ m₃ m₄ chat s = (λ h. cc h, λ h. cc h.1)
guards-agree true true true true false m m₁ m₂ m₃ m₄ chat s = (λ h. cc h, λ h. cc h.1)

module _ {W : Type 0} (env : Env W) where
  -- A destination that is not empty and has no white space round it gives a chat to the upload to
  -- Telegram just when the check of an event accepts it.
  pub parse_telegram_destination-agrees :
      {S : Type 0} (c : ℕ) (t : Text) (s : S)
      → strip (c ∷ t) ≡ c ∷ t
      → ((validate_telegram_destination env (c ∷ t) s).0 ≡ ok tt)
        ↔ ((chat : Text) × ((parse_telegram_destination env (c ∷ t) s).0 ≡ ok chat))
  unfolding validate_telegram_destination parse_telegram_destination is_telegram_chat ◌>>=◌
  parse_telegram_destination-agrees c t s plain = rw plain (by_parts (env.urlsplit (c ∷ t)) refl)
    where
      by_parts :
          (r : Result Url)
          → env.urlsplit (c ∷ t) ≡ r
          → ((validate_telegram_destination env (c ∷ t) s).0 ≡ ok tt) ↔ (
              (chat : Text) × (((do
                parsed ← from_result (env.urlsplit (c ∷ t))
                guard
                    (text_eq parsed.scheme (str "tg") && text_eq parsed.netloc (str "chat"))
                    (str "telegram destination must use tg://chat/<chat_ref>")
                let chat_ref = strip (env.unquote (strip_char b'/' parsed.path))
                guard (not (is_empty chat_ref)) (str "telegram destination chat_ref is required")
                guard
                    (not (has_char b'/' chat_ref))
                    (str "telegram destination must target a single chat")
                guard
                    (is_chat_id env chat_ref || is_chat_username chat_ref)
                    (str "telegram destination chat_ref must be @username or numeric chat id")
                pure chat_ref)
                  s).0
                ≡ ok chat))
      by_parts (err e) split = rw split (λ h. cc h, λ h. cc h.1)
      by_parts (ok u) split =
          let chat_ref = strip (env.unquote (strip_char b'/' u.path)) in
          rw split (
            guards-agree (text_eq u.scheme (str "tg")) (text_eq u.netloc (str "chat"))
              (not (is_empty chat_ref)) (not (has_char b'/' chat_ref))
              (is_chat_id env chat_ref || is_chat_username chat_ref) _ _ _ _ _ chat_ref s)
