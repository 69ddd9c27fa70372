-- ===== src/Samples/Supervisor.antt =====
-- A host whose workers all end after a few sleeps of the supervisor.
use media_shuttle.Prelude.{
  ℕ, false, if◌then◌else◌, zero, suc, ◌+◌, ◌-◌, ◌≡◌, ◌⊎◌, refl, Option, none, some, List, [], ◌∷◌,
  ℤ, pos, In,
}
use media_shuttle.Py.Text.{str, text_eq}
use media_shuttle.Py.Exec.{ok}
use media_shuttle.Core.Control.{Processes}
use media_shuttle.Core.Slots.{Slot}
use media_shuttle.Core.Supervisor.{exited, Host, Running}
use media_shuttle.Core.Env.{Env}
use media_shuttle.Samples.{env}

-- The processes that were killed, the clock, and the sleeps until the workers end.
pub record Box : Type 0 where
  pub killed : List ℕ
  pub clock : ℕ
  pub left : ℕ

-- The registry is on.
abbrev pub box_env : Env Box
box_env = record {
  now = λ w. (w.clock, w);
  iso = env.iso;
  from_iso = env.from_iso;
  uuid4 = λ w. (str "fresh", w);
  getenv = λ name.
      if text_eq name (str "MEDIA_SHUTTLE_STORAGE_BACKEND") then some (str "mongo") else none;
  hostname = env.hostname;
  repr = env.repr;
  sha256 = env.sha256;
  urlsplit = env.urlsplit;
  urlunsplit = env.urlunsplit;
  unquote = env.unquote;
  is_decimal = env.is_decimal;
  resolve = λ t w. ok (t ∷ []);
  is_file = λ f w. false;
  is_symlink = λ f w. false;
  is_dir = λ f w. false;
  rglob = λ f w. [];
  rglob_sorted = λ f w. [];
  unlink = λ f w. (ok tt, w);
  rmdir = λ f w. (ok tt, w);
}

abbrev pub code_when : ℕ → Option ℤ
code_when zero = some (pos 3)
code_when (suc n) = none

abbrev pub box_processes : Processes Box
box_processes = record {
  poll = λ pid w. code_when w.left;
  terminate = λ pid w. w;
  kill = λ pid w. record w { killed = pid ∷ w.killed };
  sleep = λ w. record w { clock = w.clock + 1 };
  time = λ w. w.clock;
  start = λ role concurrency hostname w. (ok 44, w);
}

abbrev pub host : Host Box
host = record {
  processes = box_processes;
  popen = λ command w. (ok 44, w);
  wait = λ pid w. (exited pid (pos 0), w);
  nap = λ w. (none, record w { left = w.left - 1 });
  monotonic = λ w. w.clock;
  signal_name = λ n. some (str "SIGTERM");
  mongo_upsert = some (λ report w. (ok tt, w));
}

abbrev pub slot : Slot
slot = record {
  role = str "parse";
  hostname = str "core-worker-parse@media-shuttle-core";
  queues_csv = str "q";
  queues = str "q" ∷ [];
  concurrency = 1;
}

abbrev pub workers : List Running
workers = (slot, 44) ∷ (slot, 45) ∷ []

abbrev pub box : Box
box = record { killed = []; clock = 0; left = 2 }

-- Ended, or killed.
abbrev pub IsGone : ℕ → Box → Type 0
IsGone p w = In p w.killed ⊎ (w.left ≡ 0)

pub code_when-zero : (n : ℕ) (code : ℤ) → code_when n ≡ some code → n ≡ 0
code_when-zero zero code e = refl
code_when-zero (suc n) code e = cc e
