-- ===== src/Core/Repository/Mongo/Refinement.antt =====
-- The repository over a collection answers as the one in memory does, over any sequence of calls.
use media_shuttle.Prelude.{
  ℕ, ◌≡◌, refl, sym, ap, ◌∙◌, Bool, true, false, Option, none, some, List, [], ◌∷◌, map, map_option,
  get_or, All, if◌then◌else◌,
}
use media_shuttle.Py.Text.{Text, str, replace, text_eq}
use media_shuttle.Py.Exec.{ok, Exec, pure, ◌>>=◌, ◌>>◌}
use media_shuttle.Py.Dict
use media_shuttle.Core.Env.{Env}
use media_shuttle.Core.Model.{TaskStatus, TaskRecord}
use media_shuttle.Core.Collection.{Collection}
use media_shuttle.Core.Repository.{RuntimePatch, set_status, set_runtime_fields}
use media_shuttle.Core.Repository.Memory
use media_shuttle.Core.Repository.Memory.{Items, returns_modify}
use media_shuttle.Core.Repository.Mongo
use media_shuttle.Core.Repository.Mongo.{
  TaskDocument, to_document, from_document, set_status_fields, set_patch_fields, is_blank, or_kept,
  patched_list,
}
use media_shuttle.Core.Repository.Mongo.RoundTrip.{from_document-to_document}

-- A call of a task repository with its time, and what it gives back.
pub data RepositoryCall : Type 0 where
  create : TaskRecord → RepositoryCall
  get : Text → RepositoryCall
  update_status : ℕ → Text → TaskStatus → Text → RepositoryCall
  update_runtime_fields : ℕ → Text → RuntimePatch → RepositoryCall

-- A call that changes fields gives some field.
abbrev pub IsMeant : RepositoryCall → Type 0
IsMeant (update_runtime_fields now i patch) = is_blank patch ≡ false
IsMeant _ = Unit

unfoldable pub memory_call : RepositoryCall → Items → Option TaskRecord × Items
unfolding Memory.create Memory.get Memory.update_status Memory.update_runtime_fields
memory_call (create r) items = (none, Memory.create r items)
memory_call (get i) items = (Memory.get i items, items)
memory_call (update_status now i status message) items =
    Memory.update_status now i status message items
memory_call (update_runtime_fields now i patch) items =
    Memory.update_runtime_fields now i patch items

unfoldable pub memory_calls : List RepositoryCall → Items → List (Option TaskRecord) × Items
unfolding memory_call
memory_calls [] items = ([], items)
memory_calls (call ∷ calls) items =
    let (reply, items') = memory_call call items in
    let (replies, last) = memory_calls calls items' in (reply ∷ replies, last)

patched_list_lem :
    {A : Type 0} (o : Option (List A)) (xs : List A)
    → patched_list o (some (map some xs)) ≡ some (map some (get_or o xs))
patched_list_lem none xs = refl
patched_list_lem (some ys) xs = refl

or_kept_lem : {A : Type 0} (o : Option A) (x : A) → or_kept o (some x) ≡ some (get_or o x)
or_kept_lem none x = refl
or_kept_lem (some y) x = refl

module _ {W C : Type 0} (env : Env W) (collection : Collection TaskDocument C) where
  unfoldable pub mongo_call : RepositoryCall → Exec C (Option TaskRecord)
  unfolding Mongo.create Mongo.get Mongo.update_status Mongo.update_runtime_fields
  mongo_call (create r) = do Mongo.create env collection r; pure none
  mongo_call (get i) = Mongo.get env collection i
  mongo_call (update_status now i status message) =
      Mongo.update_status env collection now i status message
  mongo_call (update_runtime_fields now i patch) =
      Mongo.update_runtime_fields env collection now i patch

  unfoldable pub mongo_calls : List RepositoryCall → Exec C (List (Option TaskRecord))
  unfolding mongo_call
  mongo_calls [] = pure []
  mongo_calls (call ∷ calls) = do
    reply ← mongo_call call
    replies ← mongo_calls calls
    pure (reply ∷ replies)

  -- The collection holds the documents of the records.
  abbrev pub Shows : C → Items → Type 0
  Shows c items =
      (j : Text) → collection.find_one j c ≡ map_option (to_document env) (Dict.get j items)

  module _ (dated : (n : ℕ) → env.from_iso (replace b'Z' (str "+00:00") (env.iso n)) ≡ ok n) where
    read_back :
        (o : Option TaskRecord) (c : C)
        → from_document env (map_option (to_document env) o) c ≡ (ok o, c)
    unfolding from_document
    read_back none c = refl
    read_back (some r) c = from_document-to_document env dated r c

    get-Shows :
        (i : Text) (c : C) (items : Items)
        → Shows c items
        → Mongo.get env collection i c ≡ (ok (Dict.get i items), c)
    unfolding Mongo.get
    get-Shows i c items shows = rw (shows i) (read_back (Dict.get i items) c)

    -- A write on both sides, by functions that agree.
    modify-Shows :
        (i : Text) (f : TaskRecord → TaskRecord) (g : TaskDocument → TaskDocument) (c : C)
        (items : Items)
        → ((r : TaskRecord) → g (to_document env r) ≡ to_document env (f r))
        → Shows c items
        → Shows (collection.update_one i g c) (Dict.modify i f items)
    modify-Shows i f g c items agree shows j =
        collection.find_one-update_one i j g c
        ∙ (ap (λ o. if text_eq i j then map_option g o else o) (shows j)
            ∙ (swap (text_eq i j) (Dict.get j items)
                ∙ ap (map_option (to_document env)) (sym (Dict.get-modify i j f items))))
      where
        swap :
            (b : Bool) (o : Option TaskRecord)
            → (if b
                then map_option g (map_option (to_document env) o)
                else map_option (to_document env) o)
              ≡ map_option (to_document env) (if b then map_option f o else o)
        swap true none = refl
        swap true (some r) = ap some (agree r)
        swap false o = refl

    create-Shows :
        (r : TaskRecord) (c : C) (items : Items)
        → Shows c items
        → Shows
            (collection.replace_one r.task_id (to_document env r) c)
            (Dict.put r.task_id r items)
    create-Shows r c items shows j =
        collection.find_one-replace_one r.task_id j (to_document env r) c
        ∙ (ap (λ o. if text_eq r.task_id j then some (to_document env r) else o) (shows j)
            ∙ (swap (text_eq r.task_id j) (Dict.get j items)
                ∙ ap (map_option (to_document env)) (sym (Dict.get-put r.task_id j r items))))
      where
        swap :
            (b : Bool) (o : Option TaskRecord)
            → (if b then some (to_document env r) else map_option (to_document env) o)
              ≡ map_option (to_document env) (if b then some r else o)
        swap true o = refl
        swap false o = refl

    set_status_lem :
        (now : ℕ) (status : TaskStatus) (message : Text) (r : TaskRecord)
        → set_status_fields (env.iso now) status message (to_document env r)
          ≡ to_document env (set_status now status message r)
    unfolding set_status_fields to_document set_status
    set_status_lem now status message r = refl

    set_patch_lem :
        (now : ℕ) (patch : RuntimePatch) (r : TaskRecord)
        → set_patch_fields (env.iso now) patch (to_document env r)
          ≡ to_document env (set_runtime_fields now patch r)
    unfolding set_patch_fields to_document set_runtime_fields
    set_patch_lem now patch r = rw (
      patched_list_lem patch.sources r.sources,
      patched_list_lem patch.artifacts r.artifacts,
      or_kept_lem patch.last_error r.last_error,
    )

    -- A change of one record by both, and the record that is then read.
    change-Shows :
        (i : Text) (f : TaskRecord → TaskRecord) (g : TaskDocument → TaskDocument) (c : C)
        (items : Items)
        → ((r : TaskRecord) → g (to_document env r) ≡ to_document env (f r))
        → Shows c items
        → Mongo.get env collection i (collection.update_one i g c)
          ≡ (ok (map_option f (Dict.get i items)), collection.update_one i g c)
    change-Shows i f g c items agree shows =
        get-Shows i (collection.update_one i g c) (Dict.modify i f items)
          (modify-Shows i f g c items agree shows)
        ∙ ap (λ o. (ok o, collection.update_one i g c)) (sym (returns_modify i f items))

    -- What a call on the collection comes to, beside the call in memory.
    abbrev Matches : RepositoryCall → C → Items → Type 0
    Matches call c items =
        (c' : C) × (mongo_call call c ≡ (ok (memory_call call items).0, c'))
        × Shows c' (memory_call call items).1

    mongo_call-Matches :
        (call : RepositoryCall) (c : C) (items : Items)
        → IsMeant call
        → Shows c items
        → Matches call c items
    unfolding mongo_call memory_call Mongo.create Mongo.update_status Mongo.update_runtime_fields
        Memory.create Memory.get Memory.update_status Memory.update_runtime_fields ◌>>=◌
    mongo_call-Matches (create r) c items _ shows = (_, refl, create-Shows r c items shows)
    mongo_call-Matches (get i) c items _ shows = (c, get-Shows i c items shows, shows)
    mongo_call-Matches (update_status now i status message) c items _ shows = (
      _,
      change-Shows i (set_status now status message)
          (set_status_fields (env.iso now) status message) c items
          (set_status_lem now status message) shows,
      modify-Shows i (set_status now status message)
          (set_status_fields (env.iso now) status message) c items
          (set_status_lem now status message) shows,
    )
    mongo_call-Matches (update_runtime_fields now i patch) c items meant shows = rw meant (
      _,
      change-Shows i (set_runtime_fields now patch) (set_patch_fields (env.iso now) patch) c items
          (set_patch_lem now patch) shows,
      modify-Shows i (set_runtime_fields now patch) (set_patch_fields (env.iso now) patch) c items
          (set_patch_lem now patch) shows,
    )

    -- A repository over a collection that holds the documents of some records answers any sequence
    -- of calls as the repository in memory of the same records does, and the collection holds the
    -- documents of its records again, if Python reads back the times that it writes and every
    -- update of runtime fields gives some field.
    pub mongo_calls-agrees :
        (calls : List RepositoryCall) (c : C) (items : Items)
        → All IsMeant calls
        → Shows c items
        → (c' : C) × (mongo_calls calls c ≡ (ok (memory_calls calls items).0, c'))
          × Shows c' (memory_calls calls items).1
    unfolding mongo_calls memory_calls ◌>>=◌
    mongo_calls-agrees [] c items _ shows = (c, refl, shows)
    mongo_calls-agrees (call ∷ calls) c items meant shows =
        let (c', e, shows') = mongo_call-Matches call c items meant.0 shows in
        let (c'', e', shows'') =
          mongo_calls-agrees calls c' (memory_call call items).1 meant.1 shows' in
        (c'', rw (e, e'), shows'')
