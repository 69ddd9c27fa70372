-- ===== src/Py/Text/Search.antt =====
-- Looking for a text in another: `startswith`, `endswith`, `in`.
use media_shuttle.Prelude.{
  ℕ, Bool, true, Option, none, some, List, [], ◌∷◌, ◌==◌, is_some, if◌then◌else◌,
}
use media_shuttle.Py.Text.{Text, text_eq, is_empty}

-- What follows the prefix, where characters count as equal when `same` says so.
unfoldable pub after_prefix : (ℕ → ℕ → Bool) → Text → Text → Option Text
after_prefix same [] s = some s
after_prefix same (p ∷ prefix) [] = none
after_prefix same (p ∷ prefix) (c ∷ s) =
    let rest = after_prefix same prefix s in if same p c then rest else none

unfoldable pub starts_with : Text → Text → Bool
unfolding after_prefix
starts_with prefix s = is_some (after_prefix (λ a b. a == b) prefix s)

unfoldable pub ends_with : Text → Text → Bool
unfolding text_eq
ends_with suffix [] = is_empty suffix
ends_with suffix (c ∷ s) =
    let rest = ends_with suffix s in if text_eq (c ∷ s) suffix then true else rest

-- `needle in s`
unfoldable pub contains : Text → Text → Bool
unfolding starts_with
contains needle [] = is_empty needle
contains needle (c ∷ s) =
    let rest = contains needle s in if starts_with needle (c ∷ s) then true else rest

unfoldable pub take_while : (ℕ → Bool) → Text → Text
take_while p [] = []
take_while p (c ∷ s) = let rest = take_while p s in if p c then c ∷ rest else []

unfoldable pub drop_while : (ℕ → Bool) → Text → Text
drop_while p [] = []
drop_while p (c ∷ s) = let rest = drop_while p s in if p c then rest else c ∷ s

-- `items[-1] if items else d`
unfoldable pub last_or : {A : Type 0} → List A → A → A
last_or [] d = d
last_or (x ∷ xs) d = last_or xs x

-- `[x for x in s.split(sep) if x]`
unfoldable pub filled_parts : List Text → List Text
filled_parts [] = []
filled_parts ([] ∷ parts) = filled_parts parts
filled_parts ((c ∷ s) ∷ parts) = (c ∷ s) ∷ filled_parts parts
