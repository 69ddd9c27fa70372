-- ===== src/Core/Control/Rounds.antt =====
-- That the rounds which the model gives to the wait for a stopped process suffice.
use media_shuttle.Prelude.{
  ℕ, zero, suc, false, ◌+◌, ◌≤◌, ◌≡◌, refl, inl, inr, arith, Bool-cases, Option-cases, ltb,
}
use media_shuttle.Core.Env.{Env}
use media_shuttle.Core.Control.{Processes, wait_exit}

not_before : (a b : ℕ) → b ≤ a → ltb a b ≡ false
not_before a b h = ground arith

module _ {W : Type 0} (env : Env W) (os : Processes W)
    (sleeps : (w : W) → os.time w + 1 ≤ os.time (os.sleep w)) where
  wait_exit-late :
      (rounds deadline pid : ℕ) (w : W)
      → deadline ≤ os.time w
      → wait_exit env os rounds deadline pid w ≡ w
  unfolding wait_exit
  wait_exit-late zero deadline pid w late = refl
  wait_exit-late (suc rounds) deadline pid w late = elim (Option-cases (os.poll pid w)) [
    | inl running ↦ rw (running, wait_exit, not_before _ _ late) refl
    | inr (code, e) ↦ rw (e, wait_exit) refl
  ]

  enough :
      (n more deadline pid : ℕ) (w : W)
      → n ≤ more
      → deadline ≤ os.time w + n
      → wait_exit env os more deadline pid w ≡ wait_exit env os n deadline pid w
  unfolding wait_exit
  enough zero more deadline pid w h soon = wait_exit-late more deadline pid w (omega (arith, soon))
  enough (suc n) zero deadline pid w h soon = absurd (omega (arith, h))
  enough (suc n) (suc more) deadline pid w h soon = elim (Option-cases (os.poll pid w)) [
    | inr (code, e) ↦ rw (e, wait_exit) refl
    | inl running ↦ elim (Bool-cases (ltb (os.time w) deadline)) [
      | inr late ↦ rw (running, wait_exit, late) refl
      | inl early ↦
          rw (running, wait_exit, early)
            (enough n more deadline pid (os.sleep w) (omega (arith, h))
              (omega (arith, sleeps w, soon)))
    ]
  ]

  -- The wait for a stopped process, which is over ten seconds later, comes to the same with any more
  -- than a hundred rounds, if each sleep takes a tenth of a second.
  pub wait_exit-enough :
      (more pid : ℕ) (w : W)
      → 100 ≤ more
      → wait_exit env os more (os.time w + 100) pid w ≡ wait_exit env os 100 (os.time w + 100) pid w
  wait_exit-enough more pid w h = enough 100 more (os.time w + 100) pid w h (omega arith)
