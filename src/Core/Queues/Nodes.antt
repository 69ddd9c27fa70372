-- ===== src/Core/Queues/Nodes.antt =====
-- The names of nodes: normalising one again changes nothing.
use media_shuttle.Prelude.{
  ℕ, ◌≡◌, refl, ◌∙◌, ap, Bool, true, false, inl, inr, Option, some, [], ◌∷◌, arith, All, ◌||◌, ◌==◌,
  Bool-cases, get_or,
}
use media_shuttle.Py.Text.{
  Text, in_range, is_space, is_empty, strip, strip_left, strip_right, upper, to_upper,
}
use media_shuttle.Core.Queues.{is_node_char, sub_runs, normalize_owner_node}

-- A capital letter, a digit, `_` or `-`.
abbrev pub is_clean : ℕ → Bool
is_clean c = in_range 65 90 c || in_range 48 57 c || c == 95 || c == 45

abbrev pub IsClean : Text → Type 0
IsClean s = All (λ c. is_clean c ≡ true) s

clean_space : (c : ℕ) → is_clean c ≡ true → is_space c ≡ false
unfolding is_space
clean_space c h = ground arith

clean_node : (c : ℕ) → is_clean c ≡ true → is_node_char c ≡ true
unfolding is_node_char
clean_node c h = ground arith

clean_upper : (c : ℕ) → is_clean c ≡ true → to_upper c ≡ c
unfolding to_upper
clean_upper c h = ground arith

node_upper : (c : ℕ) → is_node_char c ≡ true → is_clean (to_upper c) ≡ true
unfolding to_upper is_node_char
node_upper c h = ground arith

strip_left_clean : (s : Text) → IsClean s → strip_left s ≡ s
unfolding strip_left
strip_left_clean [] h = refl
strip_left_clean (c ∷ s) h = rw (clean_space c h.0)

strip_right_clean : (s : Text) → IsClean s → strip_right s ≡ s
unfolding strip_right
strip_right_clean [] h = refl
strip_right_clean (c ∷ s) h = rw (clean_space c h.0, strip_right_clean s h.1)

strip_clean : (s : Text) → IsClean s → strip s ≡ s
unfolding strip
strip_clean s h = ap strip_left (strip_right_clean s h) ∙ strip_left_clean s h

sub_runs_clean : (b : Bool) (s : Text) → IsClean s → sub_runs b s ≡ s
unfolding sub_runs
sub_runs_clean b [] h = refl
sub_runs_clean b (c ∷ s) h = rw (clean_node c h.0, sub_runs_clean false s h.1)

upper_clean : (s : Text) → IsClean s → upper s ≡ s
unfolding upper
upper_clean [] h = refl
upper_clean (c ∷ s) h = rw (clean_upper c h.0, upper_clean s h.1)

-- What the substitution leaves is made of the characters of a node's name.
sub_runs-upper-IsClean : (b : Bool) (s : Text) → IsClean (upper (sub_runs b s))
unfolding sub_runs upper
sub_runs-upper-IsClean b [] = tt
sub_runs-upper-IsClean b (c ∷ s) = elim (Bool-cases (is_node_char c)) [
  | inl e ↦ rw e (node_upper c e, sub_runs-upper-IsClean false s)
  | inr e ↦ elim (Bool-cases b) [
    | inl run ↦ rw (e, run) (sub_runs-upper-IsClean true s)
    | inr first ↦ rw (e, first) (refl, sub_runs-upper-IsClean true s)
  ]
]

pub normalize_owner_node-IsClean : (raw : Option Text) → IsClean (normalize_owner_node raw)
unfolding normalize_owner_node
normalize_owner_node-IsClean raw = elim (Bool-cases (is_empty (strip (get_or raw [])))) [
  | inl e ↦ rw e tt
  | inr e ↦ rw e (sub_runs-upper-IsClean false (strip (get_or raw [])))
]

normalize_clean : (s : Text) → IsClean s → normalize_owner_node (some s) ≡ s
unfolding normalize_owner_node
normalize_clean [] h = rw (strip_clean [] h)
normalize_clean (c ∷ s) h =
    rw (strip_clean (c ∷ s) h, sub_runs_clean false (c ∷ s) h) (upper_clean (c ∷ s) h)

-- Normalising the name of a node twice is normalising it once.
pub normalize_owner_node_idempotent :
    (raw : Option Text)
    → normalize_owner_node (some (normalize_owner_node raw)) ≡ normalize_owner_node raw
normalize_owner_node_idempotent raw = normalize_clean _ (normalize_owner_node-IsClean raw)
