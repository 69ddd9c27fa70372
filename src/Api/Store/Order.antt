-- ===== src/Api/Store/Order.antt =====
-- What `InMemoryTaskRepository.list` of media-shuttle-api/app/repository.py hands out: the newest of
-- the tasks that were asked for.
use mathlib.Core.Bool.{false≢true}
use mathlib.Core.List.{Perm, perm_middle, append-nil}
use mathlib.Core.List.Perm
use media_shuttle.Prelude.{
  ℕ, zero, suc, ◌≡◌, refl, sym, subst, ap, ◌∙◌, true, false, inl, inr, Option, none, some, List, [],
  ◌∷◌, ◌++◌, arith, All, take, length, Bool-cases, length-take, keep_if, min,
}
use media_shuttle.Py.Text.{Text, text_eq}
use media_shuttle.Py.Text.Equality.{text_eq→eq, text_eq_iff}
use media_shuttle.Py.Text.Order.{text_lt_asym, not_text_lt_trans}
use media_shuttle.Py.Dict.{Dict, values}
use media_shuttle.Py.Sort.{sort, IsSorted, sort-IsSorted, sort-perm, length-sort}
use media_shuttle.Api.Model.{TaskRecord}
use media_shuttle.Api.Store.{newer, with_status, list_tasks}

abbrev drop : {A : Type 0} → ℕ → List A → List A
drop zero xs = xs
drop (suc n) [] = []
drop (suc n) (x ∷ xs) = drop n xs

take-drop : {A : Type 0} (n : ℕ) (xs : List A) → take n xs ++ drop n xs ≡ xs
take-drop zero xs = refl
take-drop (suc n) [] = refl
take-drop (suc n) (x ∷ xs) = ap (λ l. x ∷ l) (take-drop n xs)

newer_total : (a b : TaskRecord) → newer a b ≡ false → newer b a ≡ true
unfolding newer
newer_total a b h = ground (arith, h, text_lt_asym a.created_at b.created_at)

newer_trans : (a b c : TaskRecord) → newer a b ≡ true → newer b c ≡ true → newer a c ≡ true
unfolding newer
newer_trans a b c h k =
    ground (arith, h, k, not_text_lt_trans a.created_at b.created_at c.created_at)

-- The records asked for: those of the status, or all when none is given.
abbrev IsWanted : Option Text → TaskRecord → Type 0
IsWanted none t = Unit {0}
IsWanted (some []) t = Unit {0}
IsWanted (some (c ∷ s)) t = t.status ≡ c ∷ s

All-tt : (xs : List TaskRecord) → All (λ t. Unit {0}) xs
All-tt [] = tt
All-tt (x ∷ xs) = (tt, All-tt xs)

-- The items that fit a test and those that do not.
pub record Parted (P : TaskRecord → Type 0) (items kept : List TaskRecord) : Type 0 where
  pub left : List TaskRecord
  pub whole : Perm (kept ++ left) items
  pub wanted : All P kept
  pub unwanted : All (λ t. ¬ P t) left

keep_if-Parted :
    (s : Text) (xs : List TaskRecord)
    → Parted (λ t. t.status ≡ s) xs (keep_if (λ t. text_eq t.status s) xs)
keep_if-Parted s [] = record { left = []; whole = Perm.refl []; wanted = tt; unwanted = tt }
keep_if-Parted s (x ∷ xs) =
    let h = keep_if-Parted s xs in
    elim (Bool-cases (text_eq x.status s)) [
      | inl e ↦
          rw (e, keep_if)
            (record {
              left = h.left;
              whole = Perm.cons x h.whole;
              wanted = (text_eq→eq x.status s e, h.wanted);
              unwanted = h.unwanted;
            })
      | inr e ↦
          rw (e, keep_if)
            (record {
              left = x ∷ h.left;
              whole = Perm.trans (perm_middle _ h.left) (Perm.cons x h.whole);
              wanted = h.wanted;
              unwanted = (λ same. false≢true (sym e ∙ (text_eq_iff x.status s).1 same), h.unwanted);
            })
    ]

all-Parted : (items : List TaskRecord) → Parted (λ t. Unit {0}) items items
all-Parted items = record {
  left = [];
  whole = subst (λ l. Perm l items) (sym (append-nil items)) (Perm.refl items);
  wanted = All-tt items;
  unwanted = tt;
}

with_status-Parted :
    (status : Option Text) (items : List TaskRecord)
    → Parted (IsWanted status) items (with_status status items)
unfolding with_status
with_status-Parted none items = all-Parted items
with_status-Parted (some []) items = all-Parted items
with_status-Parted (some (c ∷ s)) items = keep_if-Parted (c ∷ s) items

-- `kept` are the items asked for, all of them.
pub record IsNewest (status : Option Text) (limit : ℕ) (items out : List TaskRecord) : Type 0 where
  pub kept : List TaskRecord
  pub parted : Parted (IsWanted status) items kept
  pub rest : List TaskRecord
  pub in_order : IsSorted newer (out ++ rest)
  pub split : Perm (out ++ rest) kept
  pub full : length out ≡ min limit (length kept)

-- The stored tasks are parted into those of the status (all of them when no status, or an empty one,
-- is given) and those of another one. The list and some rest are together the former, each once and
-- in order of time, the newest first; the list has as many of them as there are, at most the limit.
pub list_tasks-IsNewest :
    (status : Option Text) (limit : ℕ) (items : Dict TaskRecord)
    → IsNewest status limit (values items) (list_tasks status limit items)
unfolding list_tasks
list_tasks-IsNewest status limit items =
    let kept = with_status status (values items) in
    let sorted = sort newer kept in
    record {
      kept = kept;
      parted = with_status-Parted status (values items);
      rest = drop limit sorted;
      in_order =
          subst (IsSorted newer) (sym (take-drop limit sorted))
            (sort-IsSorted newer newer_total newer_trans kept);
      split = subst (λ l. Perm l kept) (sym (take-drop limit sorted)) (sort-perm newer kept);
      full = length-take limit sorted ∙ ap (min limit) (length-sort newer kept);
    }
