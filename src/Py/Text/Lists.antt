-- ===== src/Py/Text/Lists.antt =====
-- Texts of a list: `in`, `dict.fromkeys`, and `split` after `join`.
use mathlib.Core.Bool.{false≢true}
use media_shuttle.Prelude.{
  ℕ, ◌≡◌, ◌⊎◌, refl, sym, ap, Bool, true, false, inl, inr, List, [], ◌∷◌, ◌++◌, In, Bool-cases,
  In-append_right, ◌==◌, if◌then◌else◌,
}
use media_shuttle.Py.Text.{
  Text, str, text_eq, text_in, unique, unique_from, join, split, grow, has_char,
}
use media_shuttle.Py.Text.Equality.{text_eq→eq, text_eq_refl}

if_true : (b : Bool) → (if b then true else true) ≡ true
if_true true = refl
if_true false = refl

pub text_in-In : (s : Text) (ts : List Text) → In s ts → text_in s ts ≡ true
unfolding text_in
text_in-In s [] h = absurd h
text_in-In s (t ∷ ts) (inl e) = rw (sym e, text_eq_refl s) refl
text_in-In s (t ∷ ts) (inr h) = rw (text_in-In s ts h) (if_true (text_eq s t))

kept_once :
    (q x : Text) (seen : List Text)
    → text_in q (x ∷ seen) ≡ true
    → (q ≡ x) ⊎ (text_in q seen ≡ true)
unfolding text_in
kept_once q x seen h = elim (Bool-cases (text_eq q x)) [
  | inl e ↦ inl (text_eq→eq q x e)
  | inr e ↦ inr (rw e at h)
]

In-unique_from :
    (seen items : List Text) (q : Text)
    → In q items
    → (text_in q seen ≡ true) ⊎ In q (unique_from seen items)
unfolding unique_from
In-unique_from seen [] q h = absurd h
In-unique_from seen (x ∷ rest) q (inl e) = elim (Bool-cases (text_in x seen)) [
  | inl old ↦ inl (rw e old)
  | inr new ↦ rw (new, In) (inr (inl e))
]
In-unique_from seen (x ∷ rest) q (inr h) = elim (Bool-cases (text_in x seen)) [
  | inl old ↦ rw (old, In) (In-unique_from seen rest q h)
  | inr new ↦ elim (In-unique_from (x ∷ seen) rest q h) [
    | inr kept ↦ rw (new, In) (inr (inr kept))
    | inl known ↦ elim (kept_once q x seen known) [
      | inl e ↦ rw (new, In) (inr (inl e))
      | inr before ↦ inl before
    ]
  ]
]

pub In-unique : (q : Text) (items : List Text) → In q items → In q (unique items)
unfolding unique text_in
In-unique q items h = elim (In-unique_from [] items q h) [
  | inl none_seen ↦ absurd (false≢true none_seen)
  | inr kept ↦ kept
]

module _ (c : ℕ) where
  split-plain : (q : Text) → has_char c q ≡ false → split c q ≡ q ∷ []
  unfolding split has_char
  split-plain [] h = refl
  split-plain (a ∷ q) h = elim (Bool-cases (a == c)) [
    | inl e ↦ absurd (false≢true (sym (rw e at h)))
    | inr e ↦ rw (e, split-plain q (rw e at h)) refl
  ]

  split-first :
      (q s : Text) → has_char c q ≡ false → c == c ≡ true → split c (q ++ (c ∷ s)) ≡ q ∷ split c s
  unfolding split has_char
  split-first [] s h own = rw own refl
  split-first (a ∷ q) s h own = elim (Bool-cases (a == c)) [
    | inl e ↦ absurd (false≢true (sym (rw e at h)))
    | inr e ↦ rw (e, split-first q s (rw e at h) own) refl
  ]

  -- What follows a separator is split by itself.
  split-after :
      (x s : Text)
      → c == c ≡ true
      → (first : Text) × (more : List Text) × (split c (x ++ (c ∷ s)) ≡ first ∷ (more ++ split c s))
  unfolding split
  split-after [] s own = ([], [], rw own refl)
  split-after (a ∷ x) s own =
      let (first, more, e) = split-after x s own in
      elim (Bool-cases (a == c)) [
        | inl f ↦ ([], first ∷ more, rw f (ap (λ l. [] ∷ l) e))
        | inr f ↦ (a ∷ first, more, rw f (ap (grow a) e))
      ]

-- A name without a comma is found again among the names that were joined by commas.
pub In-split_join :
    (q : Text) (names : List Text)
    → has_char b',' q ≡ false
    → In q names
    → In q (split b',' (join (str ",") names))
unfolding join
In-split_join q [] plain h = absurd h
In-split_join q (x ∷ []) plain (inl e) = rw (sym e, split-plain b',' q plain) (inl refl)
In-split_join q (x ∷ []) plain (inr h) = absurd h
In-split_join q (x ∷ y ∷ rest) plain (inl e) =
    rw (sym e, split-first b',' q (join (str ",") (y ∷ rest)) plain refl) (inl refl)
In-split_join q (x ∷ y ∷ rest) plain (inr h) =
    let (first, more, e) = split-after b',' x (join (str ",") (y ∷ rest)) refl in
    rw e (inr (In-append_right q more _ (In-split_join q (y ∷ rest) plain h)))
