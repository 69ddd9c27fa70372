-- ===== src/Py/Exec/Triple.antt =====
-- What holds after an action, given what held before: one condition for a return, one for an
-- exception.
use media_shuttle.Prelude.{◌≡◌, refl}
use media_shuttle.Py.Exec.Keeps.{Keeps}
use media_shuttle.Py.Exec.{
  Exc, Result, ok, err, Exec, pure, raise, continue, handle, ◌>>=◌, try_except,
}

abbrev pub Post : {S A : Type 0} → (A → S → Type 0) → (Exc → S → Type 0) → Result A → S → Type 0
Post Q E (ok a) s = Q a s
Post Q E (err e) s = E e s

pub record Triple {S A : Type 0} (P : S → Type 0) (m : Exec S A) (Q : A → S → Type 0)
    (E : Exc → S → Type 0) : Type 0 where
  pub at : (s : S) → P s → Post Q E (m s).0 (m s).1

module _ {S A : Type 0} {P : S → Type 0} {Q : A → S → Type 0} {E : Exc → S → Type 0} where
  pub Triple-pure : (a : A) → ((s : S) → P s → Q a s) → Triple P (pure a) Q E
  Triple-pure a h = record { at = h }

  pub Triple-raise : (e : Exc) → ((s : S) → P s → E e s) → Triple P (raise e) Q E
  Triple-raise e h = record { at = h }

  -- A condition on values alone may be assumed.
  pub Triple-given :
      {K : Type 0} (m : Exec S A) → (K → Triple P m Q E) → Triple (λ s. P s × K) m Q E
  Triple-given m h = record { at = λ s k. (h k.1).at s k.0 }

module _ {S A B : Type 0} {M : A → S → Type 0} {Q : B → S → Type 0} {E : Exc → S → Type 0} where
  Post-continue :
      (r : Result A) (s : S) (f : A → Exec S B)
      → Post M E r s
      → ((a : A) → Triple (M a) (f a) Q E)
      → Post Q E (continue r f s).0 (continue r f s).1
  Post-continue (ok a) s f h tf = (tf a).at s h
  Post-continue (err e) s f h tf = h

  pub Triple-bind :
      {P : S → Type 0} (m : Exec S A) (f : A → Exec S B)
      → Triple P m M E
      → ((a : A) → Triple (M a) (f a) Q E)
      → Triple P (m >>= f) Q E
  unfolding ◌>>=◌
  Triple-bind m f tm tf = record { at = λ s h. Post-continue (m s).0 (m s).1 f (tm.at s h) tf }

module _ {S A : Type 0} {Q : A → S → Type 0} {M E : Exc → S → Type 0} where
  Post-handle :
      (r : Result A) (s : S) (f : Exc → Exec S A)
      → Post Q M r s
      → ((e : Exc) → Triple (M e) (f e) Q E)
      → Post Q E (handle r f s).0 (handle r f s).1
  Post-handle (ok a) s f h tf = h
  Post-handle (err e) s f h tf = (tf e).at s h

  pub Triple-try_except :
      {P : S → Type 0} (m : Exec S A) (f : Exc → Exec S A)
      → Triple P m Q M
      → ((e : Exc) → Triple (M e) (f e) Q E)
      → Triple P (try_except m f) Q E
  unfolding try_except
  Triple-try_except m f tm tf = record { at = λ s h. Post-handle (m s).0 (m s).1 f (tm.at s h) tf }

module _ {S A : Type 0} {Q Q' : A → S → Type 0} where
  Post-weaken :
      (E : Exc → S → Type 0) (r : Result A) (s : S)
      → ((a : A) (t : S) → Q a t → Q' a t)
      → Post Q E r s
      → Post Q' E r s
  Post-weaken E (ok a) s h k = h a s k
  Post-weaken E (err e) s h k = k

  pub Triple-weaken :
      {P : S → Type 0} {E : Exc → S → Type 0} (m : Exec S A)
      → ((a : A) (t : S) → Q a t → Q' a t)
      → Triple P m Q E
      → Triple P m Q' E
  Triple-weaken {E = E} m h tm = record { at = λ s k. Post-weaken E (m s).0 (m s).1 h (tm.at s k) }

-- One condition for both ends, on the result and the state.
abbrev pub Ending : {S A : Type 0} → (S → Type 0) → Exec S A → (Result A → S → Type 0) → Type 0
Ending P m F = Triple P m (λ a. F (ok a)) (λ e. F (err e))

module _ {S A : Type 0} where
  Post-end :
      (F : Result A → S → Type 0) (r : Result A) (s : S)
      → Post (λ a. F (ok a)) (λ e. F (err e)) r s
      → F r s
  Post-end F (ok a) s h = h
  Post-end F (err e) s h = h

  Post-of :
      (F : Result A → S → Type 0) (r : Result A) (s : S)
      → F r s
      → Post (λ a. F (ok a)) (λ e. F (err e)) r s
  Post-of F (ok a) s h = h
  Post-of F (err e) s h = h

module _ {S A : Type 0} {P : S → Type 0} where
  pub Ending-at :
      (F : Result A → S → Type 0) (m : Exec S A) → Ending P m F → (s : S) → P s → F (m s).0 (m s).1
  Ending-at F m tm s k = Post-end F (m s).0 (m s).1 (tm.at s k)

  pub Ending-weaken :
      (F G : Result A → S → Type 0) (m : Exec S A)
      → ((r : Result A) (s : S) → F r s → G r s)
      → Ending P m F
      → Ending P m G
  Ending-weaken F G m h tm = record {
    at = λ s k. Post-of G (m s).0 (m s).1 (h (m s).0 (m s).1 (Ending-at F m tm s k));
  }

-- An action that never raises from such a state returns.
pub Triple-returns :
    {S A : Type 0} {P : S → Type 0} {Q : A → S → Type 0} (m : Exec S A)
    → Triple P m Q (λ _ _. ⊥)
    → (s : S) → P s
    → (a : A) × (t : S) × (m s ≡ (ok a, t)) × Q a t
Triple-returns {S = S} {A = A} {Q = Q} m tm s k = from_post (m s).0 (m s).1 refl (tm.at s k)
  where
    from_post :
        (r : Result A) (t : S)
        → m s ≡ (r, t)
        → Post Q (λ _ _. ⊥) r t
        → (a : A) × (t' : S) × (m s ≡ (ok a, t')) × Q a t'
    from_post (ok a) t e h = (a, t, e, h)
    from_post (err x) t e h = absurd h

-- An invariant holds after a return.
pub Triple-keeps :
    {S A : Type 0} (Inv : S → Type 0) (m : Exec S A)
    → Keeps Inv m
    → Triple Inv m (λ _. Inv) (λ _ _. Unit)
Triple-keeps {S = S} {A = A} Inv m keeps = record {
  at = λ s held. after (m s).0 (m s).1 (keeps.at s held);
}
  where
    after : (r : Result A) (t : S) → Inv t → Post (λ _. Inv) (λ _ _. Unit) r t
    after (ok a) t held = held
    after (err e) t held = tt

-- Nothing is said.
pub Triple-any :
    {S A : Type 0} {P : S → Type 0} (m : Exec S A) → Triple P m (λ _ _. Unit) (λ _ _. Unit)
Triple-any {S = S} {A = A} m = record { at = λ s _. nothing (m s).0 (m s).1 }
  where
    nothing : (r : Result A) (t : S) → Post (λ _ _. Unit) (λ _ _. Unit) r t
    nothing (ok a) t = tt
    nothing (err e) t = tt
