-- ===== src/Py/Exec/Keeps.antt =====
-- Invariants through an action: a return and an exception both count as its end.
use media_shuttle.Prelude.{◌≡◌, Bool, true, false, if◌then◌else◌}
use media_shuttle.Py.Exec.{
  Exc, Result, ok, err, Exec, pure, raise, gets, update, continue, handle, ◌>>=◌, try_except,
}

pub record Keeps {S A : Type 0} (Inv : S → Type 0) (action : Exec S A) : Type 0 where
  pub at : (before : S) → Inv before → Inv (action before).1

module _ {S : Type 0} {Inv : S → Type 0} where
  pub Keeps-update :
      (change : S → S)
      → ((before : S) → Inv before → Inv (change before))
      → Keeps Inv (update change)
  Keeps-update change kept = record { at = kept }

module _ {S A : Type 0} {Inv : S → Type 0} where
  -- What gives a result, and leaves the state.
  Keeps-given : (r : Result A) → Keeps Inv (λ before. (r, before))
  Keeps-given r = record { at = λ before held. held }

  pub Keeps-pure : (value : A) → Keeps Inv (pure value)
  Keeps-pure value = Keeps-given (ok value)

  pub Keeps-raise : (reason : Exc) → Keeps Inv (raise {A = A} reason)
  Keeps-raise reason = Keeps-given (err reason)

  pub Keeps-gets : (read : S → A) → Keeps Inv (gets read)
  Keeps-gets read = record { at = λ before held. held }

  pub Keeps-if :
      (test : Bool) (then_part else_part : Exec S A)
      → Keeps Inv then_part
      → Keeps Inv else_part
      → Keeps Inv (if test then then_part else else_part)
  Keeps-if true then_part else_part on_yes on_no = on_yes
  Keeps-if false then_part else_part on_yes on_no = on_no

  Keeps-handle :
      (r : Result A) (handler : Exc → Exec S A)
      → ((reason : Exc) → Keeps Inv (handler reason))
      → Keeps Inv (handle r handler)
  Keeps-handle (ok value) handler handled = Keeps-given (ok value)
  Keeps-handle (err reason) handler handled = handled reason

  pub Keeps-try_except :
      (body : Exec S A) (handler : Exc → Exec S A)
      → Keeps Inv body
      → ((reason : Exc) → Keeps Inv (handler reason))
      → Keeps Inv (try_except body handler)
  unfolding try_except
  Keeps-try_except body handler done handled = record {
    at = λ before held.
        (Keeps-handle (body before).0 handler handled).at (body before).1 (done.at before held);
  }

module _ {S A B : Type 0} {Inv : S → Type 0} where
  pub Keeps-continue :
      (r : Result A) (next : A → Exec S B)
      → ((value : A) → Keeps Inv (next value))
      → Keeps Inv (continue r next)
  Keeps-continue (ok value) next rest = rest value
  Keeps-continue (err reason) next rest = record { at = λ before held. held }

  pub Keeps-bind :
      (first : Exec S A) (next : A → Exec S B)
      → Keeps Inv first
      → ((value : A) → Keeps Inv (next value))
      → Keeps Inv (first >>= next)
  unfolding ◌>>=◌
  Keeps-bind first next begun rest = record {
    at = λ before held.
        (Keeps-continue (first before).0 next rest).at (first before).1 (begun.at before held);
  }

  -- The same where the result is known beforehand: the rest need only keep for that one.
  pub Keeps-bind_known :
      (r : Result A) (next : A → Exec S B) (value : A)
      → r ≡ ok value
      → Keeps Inv (next value)
      → Keeps Inv ((λ before. (r, before)) >>= next)
  unfolding ◌>>=◌
  Keeps-bind_known r next value known rest = rw known (record { at = rest.at })
