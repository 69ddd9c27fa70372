-- ===== src/Core/Uploads/Clients.antt =====
-- The client that is kept between uploads.
use media_shuttle.Prelude.{
  ◌≡◌, ◌⊎◌, refl, ap, Bool, true, false, ◌||◌, none, some, Option-cases, inl, inr, List, [], ◌∷◌,
  In, arith, sym, get_or, if◌then◌else◌,
}
use media_shuttle.Py.Text.{Text, str, strip, is_empty}
use media_shuttle.Py.Text.Lists.{text_in-In}
use media_shuttle.Py.Exec.{Result, ok, err, Exec, pure, raise, handle, ◌>>=◌, ◌>>◌, try_except}
use media_shuttle.Py.Exec.Triple.{
  Triple, Triple-pure, Triple-raise, Triple-bind, Triple-weaken, Triple-any, Post,
}
use media_shuttle.Core.Env.{Env}
use media_shuttle.Core.Contracts.{from_result}
use media_shuttle.Core.Model.{DownloadResult, UploadResult}
use media_shuttle.Core.Uploads.Telegram.{
  Pyrogram, Telegram, Sending, sent, lost, in_world, keep_client, build_telegram_client,
  get_telegram_client, close_telegram_client, should_invalidate, client_invalidation_error_names,
  settle_sending, number_of_message, upload_telegram_live, build_caption,
}

module _ {K W : Type 0} (env : Env W) (lib : Pyrogram K W) where
  dropped :
      (r : Result (Unit {0})) (t : Telegram K W)
      → t.client ≡ none
      → (handle r (λ _. pure tt) t).1.client ≡ none
  dropped (ok _) t empty = empty
  dropped (err reason) t empty = empty

  close-empties : (t : Telegram K W) → (close_telegram_client env lib t).1.client ≡ none
  unfolding close_telegram_client try_except
  close-empties t = elim (Option-cases t.client) [
    | inl nobody ↦ rw (nobody, close_telegram_client) refl
    | inr (client, e) ↦ rw (e, close_telegram_client) (dropped (lib.stop client t.world).0 _ refl)
  ]

  -- A client is kept.
  abbrev Keeps : K → Telegram K W → Type 0
  Keeps client t = t.client ≡ some client

  get_telegram_client-Keeps :
      Triple (λ _. Unit) (get_telegram_client env lib) (λ client t. Keeps client t) (λ _ _. Unit)
  unfolding get_telegram_client keep_client
  get_telegram_client-Keeps = record {
    at = λ t _. elim (Option-cases t.client) [
      | inr (client, e) ↦ rw (e, get_telegram_client) e
      | inl nobody ↦
          rw (nobody, get_telegram_client)
            ((Triple-bind {P = λ _. Unit {0}} (build_telegram_client env lib) _ (Triple-any _)
                (λ client.
                  Triple-bind (in_world env lib (lib.start client)) _ (Triple-any _)
                    (λ _. record { at = λ _ _. refl }))).at
              t tt)
    ];
  }

  -- What does not touch the client.
  untouched :
      {A : Type 0} (client : K) (r : Result A) (t : Telegram K W)
      → Keeps client t
      → Post (λ _ v. Keeps client v) (λ _ _. Unit) r t
  untouched client (ok a) t kept = kept
  untouched client (err reason) t kept = tt

  in_world-Keeps :
      {A : Type 0} (client : K) (action : Exec W A)
      → Triple (Keeps client) (in_world env lib action) (λ _ t. Keeps client t) (λ _ _. Unit)
  in_world-Keeps client action = record {
    at = λ t kept. untouched client (action t.world).0 _ kept;
  }

  build_caption-Keeps :
      (client : K) (download : DownloadResult)
      → Triple (Keeps client) (build_caption env lib download) (λ _ t. Keeps client t) (λ _ _. Unit)
  unfolding build_caption
  build_caption-Keeps client download =
      either
        (is_empty (
          strip (
            get_or (env.getenv (str "MEDIA_SHUTTLE_TG_UPLOAD_CAPTION_TEMPLATE"))
              (str "{file_name}"))))
        _
    where
      either :
          (blank : Bool) (shown : Result Text)
          → Triple
              (Keeps client)
              (if blank then pure none else (do caption ← from_result shown; pure (some caption)))
              (λ _ t. Keeps client t)
              (λ _ _. Unit)
      either true shown = Triple-pure none (λ t kept. kept)
      either false shown =
          Triple-bind _ _ (record { at = λ t kept. untouched client shown t kept })
            (λ caption. Triple-pure (some caption) (λ t kept. kept))

  settle_sending-Keeps :
      (client : K) (chat_ref : Text) (answer : Sending)
      → Triple
          (Keeps client)
          (settle_sending env lib chat_ref answer)
          (λ _ t. Keeps client t)
          (λ _ _. Unit)
  unfolding settle_sending
  settle_sending-Keeps client chat_ref (sent message) = record {
    at = λ t kept. elim (Option-cases (number_of_message message)) [
      | inl missing ↦ rw (missing, settle_sending) tt
      | inr (n, e) ↦ rw (e, settle_sending) kept
    ];
  }
  settle_sending-Keeps client chat_ref (lost flag names reason) =
      either (flag || should_invalidate names)
    where
      either :
          (gone : Bool)
          → Triple {A = UploadResult}
              (Keeps client)
              (if gone then (do close_telegram_client env lib; raise reason) else raise reason)
              (λ _ t. Keeps client t)
              (λ _ _. Unit)
      either true = Triple-bind _ _ (Triple-any _) (λ _. Triple-raise reason (λ _ _. tt))
      either false = Triple-raise reason (λ _ _. tt)

  upload-Keeps :
      (download : DownloadResult) (destination : Text)
      → Triple
          (λ _. Unit)
          (upload_telegram_live env lib download destination)
          (λ _ t. (client : K) × Keeps client t)
          (λ _ _. Unit)
  unfolding upload_telegram_live
  upload-Keeps download destination = Triple-bind _ _ (Triple-any _) (λ there.
      Triple-bind _ _ (Triple-any _) (λ _. Triple-bind _ _ (Triple-any _) (λ chat_ref.
        Triple-bind _ _ get_telegram_client-Keeps (λ client.
          Triple-bind _ _ (build_caption-Keeps client download) (λ caption.
            Triple-bind _ _ (in_world-Keeps client _) (λ answer.
              Triple-weaken _ (λ _ t kept. (client, kept))
                (settle_sending-Keeps client chat_ref answer)))))))

  get-kept :
      (client : K) (t : Telegram K W)
      → Keeps client t
      → get_telegram_client env lib t ≡ (ok client, t)
  unfolding get_telegram_client
  get-kept client t kept =
      rw (kept, get_telegram_client) (ap (λ o. (ok client, record t { client = o })) kept)

  kept_after :
      (r : Result UploadResult) (t : Telegram K W) (result : UploadResult)
      → Post (λ _ v. (client : K) × Keeps client v) (λ _ _. Unit) r t
      → r ≡ ok result
      → (client : K) × Keeps client t
  kept_after (ok _) t result h e = h
  kept_after (err reason) t result h e = cc e

  -- After an upload to Telegram that returns, there is a client which the next upload gets without
  -- starting another one and without a change of the state.
  pub upload_telegram_live-get :
      (download : DownloadResult) (destination : Text) (t : Telegram K W) (result : UploadResult)
      → (upload_telegram_live env lib download destination t).0 ≡ ok result
      → (client : K) × (get_telegram_client env lib
            (upload_telegram_live env lib download destination t).1
          ≡ (ok client, (upload_telegram_live env lib download destination t).1))
  upload_telegram_live-get download destination t result e =
      let after = upload_telegram_live env lib download destination t in
      let (client, kept) =
        kept_after after.0 after.1 result ((upload-Keeps download destination).at t tt) e in
      (client, get-kept client after.1 kept)

  -- A closing returns, whatever `stop` does.
  closed : (t : Telegram K W) → (close_telegram_client env lib t).0 ≡ ok tt
  unfolding close_telegram_client try_except
  closed t = elim (Option-cases t.client) [
    | inl nobody ↦ rw (nobody, close_telegram_client) refl
    | inr (client, e) ↦ rw (e, close_telegram_client) (handled (lib.stop client t.world).0 _)
  ]
    where
      handled : (r : Result (Unit {0})) (v : Telegram K W) → (handle r (λ _. pure tt) v).0 ≡ ok tt
      handled (ok _) v = refl
      handled (err reason) v = refl

  should_invalidate-In :
      (name : Text) (names : List Text)
      → In name names
      → In name client_invalidation_error_names
      → should_invalidate names ≡ true
  unfolding should_invalidate
  should_invalidate-In name [] h listed = absurd h
  should_invalidate-In name (other ∷ names) (inl e) listed =
      rw (sym e, text_in-In name client_invalidation_error_names listed) refl
  should_invalidate-In name (other ∷ names) (inr h) listed =
      rw (should_invalidate-In name names h listed) (ground arith)

  -- The connection was lost, or one name of the chain is listed.
  abbrev pub IsLost : Bool → List Text → Type 0
  IsLost flag names =
      (flag ≡ true) ⊎ ((name : Text) × In name names × In name client_invalidation_error_names)

  invalid :
      (flag : Bool) (names : List Text)
      → IsLost flag names
      → (flag || should_invalidate names) ≡ true
  invalid flag names (inl e) = rw e refl
  invalid flag names (inr (name, h, listed)) =
      ground (arith, should_invalidate-In name names h listed)

  -- A sending that failed with a lost connection, or with an exception whose chain names one of the
  -- listed errors, raises its reason, and no client is kept.
  pub settle_sending-empties :
      (chat_ref reason : Text) (flag : Bool) (names : List Text) (t : Telegram K W)
      → IsLost flag names
      → ((settle_sending env lib chat_ref (lost flag names reason) t).0 ≡ err reason)
        × ((settle_sending env lib chat_ref (lost flag names reason) t).1.client ≡ none)
  unfolding settle_sending ◌>>=◌
  settle_sending-empties chat_ref reason flag names t lost_so =
      rw (invalid flag names lost_so, closed t) (refl, close-empties t)
