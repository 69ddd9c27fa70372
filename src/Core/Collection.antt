-- ===== src/Core/Collection.antt =====
-- What the program uses of a MongoDB collection (the library pymongo): documents of a type `D`, each
-- under its `_id`, in a state `C`.
use media_shuttle.Prelude.{
  ℕ, ◌≡◌, ◌≤◌, Bool, true, Option, some, List, All, length, map_option, if◌then◌else◌,
}
use media_shuttle.Py.Text.{Text, text_eq}

pub record Collection (D C : Type 0) : Type 0 where
  -- `find_one({"_id": i})`
  pub find_one : (i : Text) → C → Option D
  -- `replace_one({"_id": i}, d, upsert=True)`
  pub replace_one : (i : Text) (d : D) → C → C
  -- `update_one({"_id": i}, {"$set": fields})`, the new fields as a function
  pub update_one : (i : Text) (fields : D → D) → C → C
  -- `find(query, limit=limit, sort=[(key, -1)])`, the query as a test and the key as a function
  pub find : (query : D → Bool) (limit : ℕ) (key : D → Option Text) → C → List D
  -- `count_documents(query)`
  pub count_documents : (query : D → Bool) → C → ℕ
  pub find_one-replace_one :
      (i j : Text) (d : D) (c : C)
      → find_one j (replace_one i d c) ≡ (if text_eq i j then some d else find_one j c)
  pub find_one-update_one :
      (i j : Text) (fields : D → D) (c : C)
      → find_one j (update_one i fields c)
        ≡ (if text_eq i j then map_option fields (find_one j c) else find_one j c)
  -- what is found is stored, and fits the query
  pub find_stored :
      (query : D → Bool) (limit : ℕ) (key : D → Option Text) (c : C)
      → All
          (λ d. (query d ≡ true) × ((i : Text) × (find_one i c ≡ some d)))
          (find query limit key c)
  -- a limit of zero is none
  pub find_limited :
      (query : D → Bool) (limit : ℕ) (key : D → Option Text) (c : C)
      → 1 ≤ limit
      → length (find query limit key c) ≤ limit
