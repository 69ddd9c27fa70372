-- ===== src/Core/Utils/Cleanup.antt =====
-- `cleanup_local_download` of media-shuttle-core/core/utils.py removes only what lies in the download
-- folder.
use media_shuttle.Prelude.{
  ◌≡◌, refl, sym, subst, Bool, true, false, not, ◌||◌, inl, inr, Option, none, some, List, [], ◌∷◌,
  All, Bool-cases, arith, if◌then◌else◌,
}
use mathlib.Core.Bool.{false≢true}
use media_shuttle.Py.Text.{Text}
use media_shuttle.Py.Text.Equality.{text_eq→eq}
use media_shuttle.Py.Exec.{Result, ok, err, Exec, gets, ◌>>=◌}
use media_shuttle.Py.Exec.Keeps.{
  Keeps, Keeps-pure, Keeps-gets, Keeps-if, Keeps-bind, Keeps-try_except,
}
use media_shuttle.Core.Env.{Env, FilePath}
use media_shuttle.Core.Utils.{
  same_path, is_within, rmdir_quietly, unlink_children, rmdir_children, remove_folder, remove_path,
  prune, parent, finish_cleanup, remove_and_prune, cleanup_resolved, download_root,
  cleanup_local_download,
}

pub same_path→eq : (p q : FilePath) → same_path p q ≡ true → p ≡ q
unfolding same_path
same_path→eq [] [] h = refl
same_path→eq [] (b ∷ q) h = absurd (false≢true h)
same_path→eq (a ∷ p) [] h = absurd (false≢true h)
same_path→eq (a ∷ p) (b ∷ q) h = ground (arith, h, text_eq→eq a b, same_path→eq p q)

is_within_parent :
    (root : FilePath) (a : Text) (p : FilePath)
    → is_within root p ≡ true
    → is_within root (a ∷ p) ≡ true
unfolding is_within
is_within_parent root a p h = elim (Bool-cases (same_path (a ∷ p) root)) [
  | inl e ↦ rw e refl
  | inr e ↦ rw e h
]

is_within_trans :
    (root p q : FilePath) → is_within root p ≡ true → is_within p q ≡ true → is_within root q ≡ true
unfolding is_within
is_within_trans root p [] h k = subst (λ r. is_within root r ≡ true) (sym (same_path→eq [] p k)) h
is_within_trans root p (a ∷ q) h k = elim (Bool-cases (same_path (a ∷ q) p)) [
  | inl e ↦ subst (λ r. is_within root r ≡ true) (sym (same_path→eq (a ∷ q) p e)) h
  | inr e ↦
      is_within_parent root a q
        (is_within_trans root p q h (subst (λ b. (if b then true else is_within p q) ≡ true) e k))
]

-- A value that was read, of which something is known in every state.
Keeps-read :
    {S A B : Type 0} {P : S → Type 0} {V : A → Type 0} (read : S → A) (next : A → Exec S B)
    → ((s : S) → V (read s))
    → ((a : A) → V a → Keeps P (next a))
    → Keeps P (gets read >>= next)
unfolding ◌>>=◌
Keeps-read read next known rest = record { at = λ s h. (rest (read s) (known s)).at s h }

module _ {W : Type 0} (env : Env W) (P : W → Type 0) (root : FilePath)
    (listed : (p : FilePath) (w : W) → All (λ q. is_within p q ≡ true) (env.rglob p w))
    (listed_sorted : (p : FilePath) (w : W)
      → All (λ q. is_within p q ≡ true) (env.rglob_sorted p w))
    (unlinked : (q : FilePath) → is_within root q ≡ true → Keeps P (env.unlink q))
    (removed : (q : FilePath) → is_within root q ≡ true → Keeps P (env.rmdir q)) where
  Keeps-rmdir_quietly : (p : FilePath) → is_within root p ≡ true → Keeps P (rmdir_quietly env p)
  unfolding rmdir_quietly
  Keeps-rmdir_quietly p h = Keeps-try_except _ _ (removed p h) λ _. Keeps-pure tt

  Keeps-unlink_children :
      (p : FilePath) (children : List FilePath)
      → is_within root p ≡ true
      → All (λ q. is_within p q ≡ true) children
      → Keeps P (unlink_children env children)
  unfolding unlink_children
  Keeps-unlink_children p [] h k = Keeps-pure tt
  Keeps-unlink_children p (child ∷ children) h k =
      let later = Keeps-unlink_children p children h k.1 in
      Keeps-bind _ _ (Keeps-gets _) λ leaf.
        Keeps-if leaf _ _
          (Keeps-bind _ _ (unlinked child (is_within_trans root p child h k.0)) λ _. later) later

  Keeps-rmdir_children :
      (p : FilePath) (children : List FilePath)
      → is_within root p ≡ true
      → All (λ q. is_within p q ≡ true) children
      → Keeps P (rmdir_children env children)
  unfolding rmdir_children
  Keeps-rmdir_children p [] h k = Keeps-pure tt
  Keeps-rmdir_children p (child ∷ children) h k =
      let later = Keeps-rmdir_children p children h k.1 in
      Keeps-bind _ _ (Keeps-gets _) λ folder.
        Keeps-if folder _ _
          (Keeps-bind _ _ (Keeps-rmdir_quietly child (is_within_trans root p child h k.0))
            λ _. later)
          later

  Keeps-remove_folder : (p : FilePath) → is_within root p ≡ true → Keeps P (remove_folder env p)
  unfolding remove_folder
  Keeps-remove_folder p h = Keeps-read (env.rglob p) _ (listed p) λ children k.
      Keeps-bind _ _ (Keeps-unlink_children p children h k) λ _.
        Keeps-read (env.rglob_sorted p) _ (listed_sorted p) λ folders l.
          Keeps-bind _ _ (Keeps-rmdir_children p folders h l)
            λ _. Keeps-bind _ _ (Keeps-rmdir_quietly p h) λ _. Keeps-pure true

  Keeps-remove_path : (p : FilePath) → is_within root p ≡ true → Keeps P (remove_path env p)
  unfolding remove_path
  Keeps-remove_path p h = Keeps-bind _ _ (Keeps-gets _) λ leaf.
      Keeps-bind _ _ (Keeps-gets _) λ folder.
        Keeps-if leaf _ _ (Keeps-bind _ _ (unlinked p h) λ _. Keeps-pure true)
          (Keeps-if folder _ _ (Keeps-remove_folder p h) (Keeps-pure false))

  Keeps-prune : (p : FilePath) → Keeps P (prune env root p)
  unfolding prune
  Keeps-prune [] = Keeps-pure tt
  Keeps-prune (a ∷ p) =
      let up = Keeps-prune p in
      elim (Bool-cases (is_within root (a ∷ p))) [
        | inl e ↦
            Keeps-if (same_path (a ∷ p) root || not (is_within root (a ∷ p))) _ _ (Keeps-pure tt) (
              Keeps-bind _ _
                (Keeps-try_except _ _ (Keeps-bind _ _ (removed (a ∷ p) e) λ _. Keeps-pure true)
                  λ _. Keeps-pure false)
                λ gone. Keeps-if gone _ _ up (Keeps-pure tt))
        | inr e ↦ elim (Bool-cases (same_path (a ∷ p) root)) [
          | inl f ↦ rw (e, f) (Keeps-pure tt)
          | inr f ↦ rw (e, f) (Keeps-pure tt)
        ]
      ]

  Keeps-finish_cleanup : (p : FilePath) (o : Option Bool) → Keeps P (finish_cleanup env root p o)
  unfolding finish_cleanup parent
  Keeps-finish_cleanup p none = Keeps-pure false
  Keeps-finish_cleanup p (some b) = Keeps-bind _ _ (Keeps-prune (parent env p)) λ _. Keeps-pure b

  Keeps-remove_and_prune :
      (p : FilePath) → is_within root p ≡ true → Keeps P (remove_and_prune env root p)
  unfolding remove_and_prune
  Keeps-remove_and_prune p h =
      Keeps-bind _ _
        (Keeps-try_except _ _ (Keeps-bind _ _ (Keeps-remove_path p h) λ r. Keeps-pure (some r))
          λ _. Keeps-pure none)
        (Keeps-finish_cleanup p)

  Keeps-cleanup_resolved : (r : Result FilePath) → Keeps P (cleanup_resolved env (ok root) r)
  unfolding cleanup_resolved
  Keeps-cleanup_resolved (err e) = Keeps-pure false
  Keeps-cleanup_resolved (ok p) = elim (Bool-cases (is_within root p)) [
    | inl e ↦ rw e (Keeps-remove_and_prune p e)
    | inr e ↦ rw e (Keeps-pure false)
  ]

  -- The clean-up after an upload keeps whatever the removal of a file or folder within the download
  -- folder keeps, if `rglob` lists what lies below a folder: nothing else is removed.
  pub Keeps-cleanup_local_download :
      (local_path : Text)
      → ((w : W) → env.resolve (download_root env) w ≡ ok root)
      → Keeps P (cleanup_local_download env local_path)
  unfolding cleanup_local_download
  Keeps-cleanup_local_download local_path resolved =
      Keeps-read {V = λ r. r ≡ ok root} (env.resolve (download_root env)) _ resolved λ r e.
        Keeps-bind _ _ (Keeps-gets _) λ path.
          Keeps-if _ _ _ (Keeps-pure false) (
            subst (λ r. Keeps P (cleanup_resolved env r path)) (sym e)
              (Keeps-cleanup_resolved path))
