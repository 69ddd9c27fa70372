-- ===== src/Py/Dict/Every.antt =====
-- What holds of every entry of a dictionary, through its operations.
use media_shuttle.Prelude.{sym, subst, Bool-cases, inl, inr, Option, none, some, [], ◌∷◌, All}
use media_shuttle.Py.Text.{Text, text_eq}
use media_shuttle.Py.Text.Equality.{text_eq→eq}
use media_shuttle.Py.Dict
use media_shuttle.Py.Dict.{Dict}

module _ {V : Type 0} (P : Text × V → Type 0) where
  pub All-put : (k : Text) (v : V) (d : Dict V) → P (k, v) → All P d → All P (Dict.put k v d)
  unfolding Dict.put
  All-put k v [] h t = (h, tt)
  All-put k v ((j, w) ∷ d) h t = elim (Bool-cases (text_eq j k)) [
    | inl e ↦ rw e (subst (λ i. P (i, v)) (sym (text_eq→eq j k e)) h, t.1)
    | inr e ↦ rw e (t.0, All-put k v d h t.1)
  ]

  pub All-remove : (k : Text) (d : Dict V) → All P d → All P (Dict.remove k d)
  unfolding Dict.remove
  All-remove k [] t = tt
  All-remove k ((j, w) ∷ d) t = elim (Bool-cases (text_eq j k)) [
    | inl e ↦ rw e (All-remove k d t.1)
    | inr e ↦ rw e (t.0, All-remove k d t.1)
  ]

  pub All-modify :
      (k : Text) (f : V → V) (d : Dict V)
      → ((v : V) → P (k, v) → P (k, f v))
      → All P d
      → All P (Dict.modify k f d)
  unfolding Dict.modify
  All-modify k f [] h t = tt
  All-modify k f ((j, w) ∷ d) h t = elim (Bool-cases (text_eq j k)) [
    | inl e ↦
        let j≡k = text_eq→eq j k e in
        rw e (subst (λ i. P (i, f w)) (sym j≡k) (h w (subst (λ i. P (i, w)) j≡k t.0)), t.1)
    | inr e ↦ rw e (t.0, All-modify k f d h t.1)
  ]

  -- What holds of the entry that a key has, if it has one.
  abbrev pub OfEntry : Text → Option V → Type 0
  OfEntry k none = Unit {0}
  OfEntry k (some v) = P (k, v)

  pub All-get : (k : Text) (d : Dict V) → All P d → OfEntry k (Dict.get k d)
  unfolding Dict.get
  All-get k [] t = tt
  All-get k ((j, w) ∷ d) t = elim (Bool-cases (text_eq j k)) [
    | inl e ↦ rw e (subst (λ i. P (i, w)) (text_eq→eq j k e) t.0)
    | inr e ↦ rw e (All-get k d t.1)
  ]
