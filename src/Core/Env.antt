-- ===== src/Core/Env.antt =====
-- What the program finds outside itself, as a record of functions over a world `W`: the clock,
-- the host, the process environment, Python's library for dates, addresses, digests and files.
use media_shuttle.Prelude.{ℕ, Bool, Option, List}
use media_shuttle.Py.Text.{Text}
use media_shuttle.Py.Exec.{Result, Exec}

-- `urllib.parse.urlsplit`, by components.
pub record Url : Type 0 where
  pub scheme : Text
  pub netloc : Text
  pub path : Text
  pub query : Text
  pub fragment : Text

-- `Path(...)`: the names from the root of the file system down, the last one first.
abbrev pub FilePath : Type 0
FilePath = List Text

pub record Env (W : Type 0) : Type 0 where
  -- `datetime.now`, and its text in ISO form; `fromisoformat` of such a text, with its error
  pub now : W → ℕ × W
  pub iso : ℕ → Text
  pub from_iso : Text → Result ℕ
  -- `str(uuid.uuid4())`
  pub uuid4 : W → Text × W
  -- `os.getenv(name)` and `socket.gethostname()`
  pub getenv : Text → Option Text
  pub hostname : Text
  -- `repr(text)`, which `str(KeyError(text))` shows
  pub repr : Text → Text
  -- `hashlib.sha256(text.encode()).hexdigest()`
  pub sha256 : Text → Text
  pub urlsplit : Text → Result Url
  pub urlunsplit : Url → Text
  pub unquote : Text → Text
  -- whether `\d` of a pattern matches the character
  pub is_decimal : ℕ → Bool
  -- `Path(text).resolve()`, with its exception
  pub resolve : Text → W → Result FilePath
  pub is_file : FilePath → W → Bool
  pub is_symlink : FilePath → W → Bool
  pub is_dir : FilePath → W → Bool
  -- `rglob("*")`, in its own order and in the reverse order of `sorted`
  pub rglob : FilePath → W → List FilePath
  pub rglob_sorted : FilePath → W → List FilePath
  -- `unlink` and `rmdir` may raise; a failing call may have changed nothing or something
  pub unlink : FilePath → Exec W (Unit {0})
  pub rmdir : FilePath → Exec W (Unit {0})
