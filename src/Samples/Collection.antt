-- ===== src/Samples/Collection.antt =====
-- A collection that is a dictionary, and an environment whose times are read back.
use media_shuttle.Prelude.{
  ℕ, zero, suc, ◌≡◌, ◌≤◌, refl, arith, Bool, true, Option, none, some, List, [], ◌∷◌, ap, All,
  All-take, length, length-take_le, take, Bool-cases, if◌then◌else◌, inl, inr,
}
use media_shuttle.Py.Text.{Text, str, replace}
use media_shuttle.Py.Exec.{ok}
use media_shuttle.Py.Dict
use media_shuttle.Py.Dict.{Dict}
use media_shuttle.Core.Env.{Env}
use media_shuttle.Core.Collection.{Collection}
use media_shuttle.Samples

module _ {D : Type 0} where
  unfoldable pub kept : (D → Bool) → Option D → List D → List D
  kept query none rest = rest
  kept query (some d) rest = if query d then d ∷ rest else rest

  -- The documents under the keys that fit the query.
  unfoldable pub found : (D → Bool) → Dict D → Dict D → List D
  unfolding kept
  found query [] c = []
  found query ((i, _) ∷ keys) c = kept query (Dict.get i c) (found query keys c)

  abbrev pub limited : ℕ → List D → List D
  limited zero docs = docs
  limited (suc n) docs = take (suc n) docs

  abbrev Stored : (D → Bool) → Dict D → D → Type 0
  Stored query c d = (query d ≡ true) × ((i : Text) × (Dict.get i c ≡ some d))

  kept-Stored :
      (query : D → Bool) (i : Text) (c : Dict D) (o : Option D) (rest : List D)
      → Dict.get i c ≡ o
      → All (Stored query c) rest
      → All (Stored query c) (kept query o rest)
  unfolding kept
  kept-Stored query i c none rest e h = h
  kept-Stored query i c (some d) rest e h = elim (Bool-cases (query d)) [
    | inl fits ↦ rw (fits, All) ((fits, (i, e)), h)
    | inr fails ↦ rw fails h
  ]

  found-Stored :
      (query : D → Bool) (keys : Dict D) (c : Dict D) → All (Stored query c) (found query keys c)
  unfolding found
  found-Stored query [] c = tt
  found-Stored query ((i, _) ∷ keys) c =
      kept-Stored query i c (Dict.get i c) (found query keys c) refl (found-Stored query keys c)

  pub limited-Stored :
      (query : D → Bool) (n : ℕ) (c : Dict D) → All (Stored query c) (limited n (found query c c))
  limited-Stored query zero c = found-Stored query c c
  limited-Stored query (suc n) c =
      All-take (Stored query c) (suc n) (found query c c) (found-Stored query c c)

  pub length-limited : (n : ℕ) (docs : List D) → 1 ≤ n → length (limited n docs) ≤ n
  length-limited zero docs h = omega (arith, h)
  length-limited (suc n) docs h = length-take_le (suc n) docs

  unfoldable pub dict_collection : Collection D (Dict D)
  dict_collection = record {
    find_one = λ i c. Dict.get i c;
    replace_one = λ i d c. Dict.put i d c;
    update_one = λ i f c. Dict.modify i f c;
    find = λ query n key c. limited n (found query c c);
    count_documents = λ query c. length (found query c c);
    find_one-replace_one = λ i j d c. Dict.get-put i j d c;
    find_one-update_one = λ i j f c. Dict.get-modify i j f c;
    find_stored = λ query n key c. limited-Stored query n c;
    find_limited = λ query n key c h. length-limited n (found query c c) h;
  }

-- A time is the text of as many zeros.
abbrev pub zeros : ℕ → Text
zeros zero = []
zeros (suc n) = b'0' ∷ zeros n

abbrev pub dated_env : Env ℕ
dated_env = record Samples.env { iso = zeros; from_iso = λ t. ok (length t) }

replace-zeros : (n : ℕ) → replace b'Z' (str "+00:00") (zeros n) ≡ zeros n
unfolding replace
replace-zeros zero = refl
replace-zeros (suc n) = ap (λ t. b'0' ∷ t) (replace-zeros n)

length-zeros : (n : ℕ) → length (zeros n) ≡ n
length-zeros zero = refl
length-zeros (suc n) = ap suc (length-zeros n)

pub zeros_dated :
    (n : ℕ) → dated_env.from_iso (replace b'Z' (str "+00:00") (dated_env.iso n)) ≡ ok n
zeros_dated n = rw (replace-zeros n) (ap ok (length-zeros n))
