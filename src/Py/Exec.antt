-- ===== src/Py/Exec.antt =====
-- Code that changes state and may raise. What was written before an exception stays written, so
-- the state comes back beside the exception too.
pub mod Keeps
pub mod Triple
pub mod Bind
use media_shuttle.Py.Text.{Text}

-- An exception, by the text that `str(exc)` gives: every handler of the program reads that alone.
abbrev pub Exc : Type 0
Exc = Text

pub data Result (A : Type 0) : Type 0 where
  ok : A → Result A
  err : Exc → Result A

abbrev pub map_result : {A B : Type 0} → (A → B) → Result A → Result B
map_result f (ok a) = ok (f a)
map_result f (err e) = err e

abbrev pub Exec : Type 0 → Type 0 → Type 0
Exec S A = S → Result A × S

module _ {S A : Type 0} where
  abbrev pub pure : A → Exec S A
  pure a s = (ok a, s)

  abbrev pub raise : Exc → Exec S A
  raise e s = (err e, s)

  abbrev pub gets : (S → A) → Exec S A
  gets f s = (ok (f s), s)

abbrev pub update : {S : Type 0} → (S → S) → Exec S (Unit {0})
update f s = (ok tt, f s)

module _ {S A B : Type 0} where
  -- The rest of a block, after the first part gave `r`.
  abbrev pub continue : Result A → (A → Exec S B) → Exec S B
  continue (ok value) next state = next value state
  continue (err reason) next state = (err reason, state)

  infixl 10 ◌>>=◌ ◌>>◌
  unfoldable pub ◌>>=◌ : Exec S A → (A → Exec S B) → Exec S B
  ◌>>=◌ action next before = let (r, after) = action before in continue r next after

  abbrev pub ◌>>◌ : Exec S A → Exec S B → Exec S B
  m >> n = m >>= λ _. n

module _ {S A : Type 0} where
  abbrev pub handle : Result A → (Exc → Exec S A) → Exec S A
  handle (ok a) f s = (ok a, s)
  handle (err e) f s = f e s

  -- `try: m except Exception as e: f(e)`
  unfoldable pub try_except : Exec S A → (Exc → Exec S A) → Exec S A
  try_except m f s = let (r, s') = m s in handle r f s'

abbrev pub after_finally : {A : Type 0} → Result A → Result (Unit {0}) → Result A
after_finally r (ok _) = r
after_finally r (err e) = err e

module _ {S A : Type 0} where
  -- `try: m finally: f`
  unfoldable pub try_finally : Exec S A → Exec S (Unit {0}) → Exec S A
  try_finally m f s = let (r, s') = m s in let (r', s'') = f s' in (after_finally r r', s'')
