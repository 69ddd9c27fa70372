-- ===== src/Py/Exec/Bind.antt =====
-- Taking a block apart that returned.
use media_shuttle.Prelude.{◌≡◌, refl, ap}
use media_shuttle.Py.Exec.{Result, ok, err, Exec, continue, ◌>>=◌}

module _ {S A B : Type 0} where
  continue-eq-ok :
      (r : Result A) (s : S) (f : A → Exec S B) (b : B)
      → (continue r f s).0 ≡ ok b
      → (a : A) × (r ≡ ok a) × ((f a s).0 ≡ ok b)
  continue-eq-ok (ok a) s f b h = (a, refl, h)
  continue-eq-ok (err e) s f b h = cc

  -- If a block returned, its first part did, and the rest did from there.
  pub >>=-eq-ok :
      (m : Exec S A) (f : A → Exec S B) (s : S) (b : B)
      → ((m >>= f) s).0 ≡ ok b
      → (a : A) × ((m s).0 ≡ ok a) × ((f a (m s).1).0 ≡ ok b)
  unfolding ◌>>=◌
  >>=-eq-ok m f s b h = continue-eq-ok (m s).0 (m s).1 f b h

  -- A block whose first part returns goes on from there.
  pub ok->>= :
      (m : Exec S A) (f : A → Exec S B) (s s' : S) (a : A) → m s ≡ (ok a, s') → (m >>= f) s ≡ f a s'
  unfolding ◌>>=◌
  ok->>= m f s s' a e = ap (λ (r : Result A × S). continue r.0 f r.1) e
