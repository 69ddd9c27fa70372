-- ===== src/Witness/Files.antt =====
-- The clean-up on a small file system: the world is the list of its files.
use mathlib.Core.Bool.{false≢true}
use media_shuttle.Prelude.{
  ◌≡◌, refl, sym, subst, ◌∙◌, ap, Bool, true, false, inl, inr, none, List, [], ◌∷◌, All,
  All-keep_if, keep_if, Bool-cases, if◌then◌else◌,
}
use media_shuttle.Py.Text.{str}
use media_shuttle.Py.Exec.{ok}
use media_shuttle.Py.Exec.Keeps.{Keeps}
use media_shuttle.Core.Env.{Env, FilePath}
use media_shuttle.Core.Utils.{same_path, is_within, cleanup_local_download}
use media_shuttle.Core.Utils.Cleanup.{same_path→eq, Keeps-cleanup_local_download}
use media_shuttle.Samples.{chat_url}

abbrev Files : Type 0
Files = List FilePath

unfoldable has_file : FilePath → Files → Bool
unfolding same_path
has_file p [] = false
has_file p (f ∷ w) = let rest = has_file p w in if same_path f p then true else rest

unfoldable without_file : FilePath → Files → Files
unfolding same_path
without_file p [] = []
without_file p (f ∷ w) = let rest = without_file p w in if same_path f p then rest else f ∷ rest

below : FilePath → Files → Files
unfolding is_within
below p w = keep_if (is_within p) w

abbrev files_env : Env Files
files_env = record {
  now = λ w. (0, w);
  iso = λ t. [];
  from_iso = λ t. ok 0;
  uuid4 = λ w. ([], w);
  getenv = λ name. none;
  hostname = [];
  repr = λ t. t;
  sha256 = λ t. t;
  urlsplit = λ t. ok chat_url;
  urlunsplit = λ u. u.path;
  unquote = λ t. t;
  is_decimal = λ c. false;
  resolve = λ t w. ok (t ∷ []);
  is_file = has_file;
  is_symlink = λ f w. false;
  is_dir = λ f w. false;
  rglob = below;
  rglob_sorted = below;
  unlink = λ f w. (ok tt, without_file f w);
  rmdir = λ f w. (ok tt, w);
}

abbrev root : FilePath
root = str "/tmp/media-shuttle" ∷ []

abbrev kept : FilePath
kept = str "notes" ∷ []

outside : false ≡ is_within root kept
unfolding is_within
outside = refl

within-is-other : (q : FilePath) → is_within root q ≡ true → same_path q kept ≡ false
within-is-other q h = elim (Bool-cases (same_path q kept)) [
  | inr e ↦ e
  | inl e ↦ absurd (false≢true (outside ∙ (sym (ap (is_within root) (same_path→eq q kept e)) ∙ h)))
]

later_file :
    (f p : FilePath) (w : Files)
    → same_path f p ≡ false
    → has_file p (f ∷ w) ≡ true
    → has_file p w ≡ true
unfolding has_file
later_file f p w other = subst (λ b. (if b then true else has_file p w) ≡ true) other

has_file-without_file :
    (q p : FilePath) (w : Files)
    → same_path q p ≡ false
    → has_file p w ≡ true
    → has_file p (without_file q w) ≡ true
unfolding has_file without_file
has_file-without_file q p [] other h = h
has_file-without_file q p (f ∷ w) other h = elim (Bool-cases (same_path f q)) [
  | inl e ↦
      let apart = subst (λ r. same_path r p ≡ false) (sym (same_path→eq f q e)) other in
      rw e (has_file-without_file q p w other (later_file f p w apart h))
  | inr e ↦ elim (Bool-cases (same_path f p)) [
    | inl g ↦ rw (e, g) refl
    | inr g ↦ rw (e, g) (has_file-without_file q p w other (later_file f p w g h))
  ]
]

listed : (p : FilePath) (w : Files) → All (λ q. is_within p q ≡ true) (below p w)
unfolding below
listed p w = All-keep_if (is_within p) w

Keeps-cleanup_local_download_example :
    Keeps
      (λ w. has_file kept w ≡ true)
      (cleanup_local_download files_env (str "/tmp/media-shuttle"))
Keeps-cleanup_local_download_example =
    Keeps-cleanup_local_download files_env (λ w. has_file kept w ≡ true) root listed listed
      (λ q h. record { at = λ w k. has_file-without_file q kept w (within-is-other q h) k })
      (λ q h. record { at = λ w k. k }) (str "/tmp/media-shuttle") (λ w. refl)
