-- ===== src/Py/Text.antt =====
-- Python's `str`: a list of code points, and the methods that the program calls.
-- Case mapping covers the ASCII letters; other letters are left as they are.
pub mod Equality
pub mod Order
pub mod Search
pub mod Lists
use Prim.Native.Char.{code}
use media_shuttle.Prelude.{
  ℕ, String, Bool, true, false, not, ◌&&◌, ◌||◌, List, [], ◌∷◌, ◌++◌, map, leb, ◌==◌, ◌+◌, ◌-◌,
  if◌then◌else◌,
}

abbrev pub Text : Type 0
Text = List ℕ

-- A literal of the source.
abbrev pub str : String → Text
str String.[] = []
str (String.◌∷◌ c s) = code c ∷ str s

-- `s == t`
unfoldable pub text_eq : Text → Text → Bool
text_eq [] [] = true
text_eq [] (b ∷ t) = false
text_eq (a ∷ s) [] = false
text_eq (a ∷ s) (b ∷ t) = let rest = text_eq s t in if a == b then rest else false

-- `not s`, the truth value of an empty text.
abbrev pub is_empty : Text → Bool
is_empty [] = true
is_empty (c ∷ s) = false

-- `s or t`
abbrev pub or_text : Text → Text → Text
or_text [] t = t
or_text (c ∷ s) t = c ∷ s

abbrev pub in_range : ℕ → ℕ → ℕ → Bool
in_range lo hi c = leb lo c && leb c hi

-- `c.isspace()`, the characters that `strip` removes.
unfoldable pub is_space : ℕ → Bool
is_space c =
    in_range 9 13 c
    || in_range 28 32 c
    || c == 133
    || c == 160
    || c == 5760
    || in_range 8192 8202 c
    || c == 8232
    || c == 8233
    || c == 8239
    || c == 8287
    || c == 12288

unfoldable pub strip_left : Text → Text
strip_left [] = []
strip_left (c ∷ s) = let rest = strip_left s in if is_space c then rest else c ∷ s

-- Drops the trailing white space: a suffix of spaces only becomes empty.
unfoldable pub strip_right : Text → Text
strip_right [] = []
strip_right (c ∷ s) =
    let rest = strip_right s in if is_space c && is_empty rest then [] else c ∷ rest

-- `s.strip()`
unfoldable pub strip : Text → Text
unfolding strip_left strip_right is_space
strip s = strip_left (strip_right s)

unfoldable pub to_upper : ℕ → ℕ
to_upper c = if in_range 97 122 c then c - 32 else c

unfoldable pub to_lower : ℕ → ℕ
to_lower c = if in_range 65 90 c then c + 32 else c

-- `s.upper()`, `s.lower()`
unfoldable pub upper : Text → Text
unfolding to_upper
upper s = map to_upper s

unfoldable pub lower : Text → Text
unfolding to_lower
lower s = map to_lower s

-- `sep.join(parts)`
unfoldable pub join : Text → List Text → Text
join sep [] = []
join sep (s ∷ []) = s
join sep (s ∷ t ∷ rest) = s ++ (sep ++ join sep (t ∷ rest))

-- One more character in front of the first part.
abbrev pub grow : ℕ → List Text → List Text
grow c [] = (c ∷ []) ∷ []
grow c (p ∷ ps) = (c ∷ p) ∷ ps

-- `s.replace(c, t)` for one character `c`.
unfoldable pub replace : ℕ → Text → Text → Text
replace c t [] = []
replace c t (a ∷ s) = let rest = replace c t s in if a == c then t ++ rest else a ∷ rest

-- `s.lstrip(c)` for one character `c`.
unfoldable pub strip_char : ℕ → Text → Text
strip_char c [] = []
strip_char c (a ∷ s) = let rest = strip_char c s in if a == c then rest else a ∷ s

-- `c in s` for one character `c`.
unfoldable pub has_char : ℕ → Text → Bool
has_char c [] = false
has_char c (a ∷ s) = let rest = has_char c s in if a == c then true else rest

-- `s.split(sep)` for a separator of one character.
unfoldable pub split : ℕ → Text → List Text
split sep [] = [] ∷ []
split sep (c ∷ s) = let rest = split sep s in if c == sep then [] ∷ rest else grow c rest

-- `[item.strip() for item in s.split(",") if item.strip()]`
unfoldable pub strip_items : List Text → List Text
strip_items [] = []
strip_items (p ∷ ps) =
    let rest = strip_items ps in if is_empty (strip p) then rest else strip p ∷ rest

-- `s in {a, b, ...}`, for a collection of texts.
unfoldable pub text_in : Text → List Text → Bool
unfolding text_eq
text_in s [] = false
text_in s (t ∷ ts) = let rest = text_in s ts in if text_eq s t then true else rest

-- `list(dict.fromkeys(items))`: the first of each, in order.
unfoldable pub unique_from : List Text → List Text → List Text
unique_from seen [] = []
unique_from seen (s ∷ rest) = elim (text_in s seen) [
  | true ↦ unique_from seen rest
  | false ↦ s ∷ unique_from (s ∷ seen) rest
]

unfoldable pub unique : List Text → List Text
unfolding unique_from text_in
unique items = unique_from [] items

-- `s < t`: by the code points, from the left.
unfoldable pub text_lt : Text → Text → Bool
text_lt s [] = false
text_lt [] (b ∷ t) = true
text_lt (a ∷ s) (b ∷ t) = let rest = text_lt s t in if a == b then rest else leb a b
