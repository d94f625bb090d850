-- ===== src/World.antt =====
-- What the program changes besides its own variables: the files below its two roots and the permits
-- that it holds of its limiters; and what it meets there: the answers of the operating system, of
-- the servers and of the hash functions, as the parameter `Env`. A file is one of the table, with
-- its content; directories are not in the table.
pub mod Hoare
pub mod Keeps
pub mod Any
use mirror_sync.Base.{
  ℕ, ◌+◌, String, Bool, true, false, Option, none, some, List, [], ◌∷◌, Result, ok, err,
  if◌then◌else◌, suc,
}
use mirror_sync.Base.Text.{Bytes, ◌=ˢ◌}

-- Go errors, without the parts of their text that only repeat parameters; `all_failed` stands for
-- the text that lists the failures of all sources.
pub data Fault : Type 0 where
  failure : String → Fault
  http_status : ℕ → Fault
  all_failed : Fault

pub data Node : Type 0 where
  regular : Bytes → Node
  special : Node

abbrev pub Files : Type 0
Files = Bytes → Option Node

-- `clock` counts the calls of the environment, so that it may answer each in its own way.
pub record World : Type 0 where
  pub files : Files
  pub clock : ℕ
  pub source_held : ℕ
  pub global_held : ℕ

pub data Op : Type 0 where
  op_mkdir : Op
  op_open : Op
  op_read : Op
  op_write : Op
  op_sync : Op
  op_rename : Op
  op_remove : Op
  op_stat : Op
  op_chmod : Op
  op_request : Op
  op_lock : Op
  op_link : Op

-- What arrives of a body: its bytes, and the error that ended it early.
abbrev pub Stream : Type 0
Stream = Bytes × Option Fault

pub record Response : Type 0 where
  pub status_code : ℕ
  pub body : Stream

-- The environment: the error of a file operation at a time, the answer of http.Client.Do, whether
-- the context is done, the readers of packages gzip and xz, and the digests in hexadecimal.
pub record Env : Type 0 where
  pub fails : ℕ → Op → Bytes → Option Fault
  pub answer : ℕ → Bytes → Result Fault Response
  pub cancelled : ℕ → Bool
  pub decompress : Bytes → Stream → Result Fault Stream
  pub digest : Bytes → Bytes → Bytes

-- A computation that changes the world and may fail.
abbrev pub Io : Type 0 → Type 0
Io A = World → World × Result Fault A

abbrev pub done : {A : Type 0} → A → Io A
done a w = (w, ok a)

abbrev pub fail : {A : Type 0} → Fault → Io A
fail e w = (w, err e)

abbrev pub after : {A B : Type 0} → World × Result Fault A → (A → Io B) → World × Result Fault B
after (w, ok a) f = f a w
after (w, err e) f = (w, err e)

infixl 5 ◌>>=◌ ◌>>◌
unfoldable pub ◌>>=◌ : {A B : Type 0} → Io A → (A → Io B) → Io B
(m >>= f) w = after (m w) f

abbrev pub ◌>>◌ : {B : Type 0} → Io (Unit {0}) → Io B → Io B
m >> k = m >>= λ _. k

-- The result as a value: what the code does on an error is up to it.
unfoldable pub try : {A : Type 0} → Io A → Io (Result Fault A)
try m w = let (w', r) = m w in (w', ok r)

abbrev pub tick : World → World
tick w = record w { clock = suc w.clock }

abbrev pub set_file : Bytes → Option Node → Files → Files
set_file p node files q = if q =ˢ p then node else files q

abbrev pub put : Bytes → Option Node → World → World
put p node w = record w { files = set_file p node w.files }

abbrev pub answered : Option Fault → World → World × Result Fault (Unit {0})
answered none w = (w, ok tt)
answered (some e) w = (w, err e)

abbrev pub settled : Option Fault → World → World → World
settled none new old = new
settled (some e) new old = old

abbrev pub changed : Option Fault → World → World → World × Result Fault (Unit {0})
changed none new old = (new, ok tt)
changed (some e) new old = (old, err e)

-- The content of a regular file.
abbrev pub node_bytes : Option Node → Option Bytes
node_bytes none = none
node_bytes (some special) = none
node_bytes (some (regular content)) = some content

abbrev pub unless_failed : Option Fault → Option Bytes → Option Bytes
unless_failed none o = o
unless_failed (some e) o = none

module _ (env : Env) where
  -- A call that changes no file's content: MkdirAll, Sync, Chmod, Flock.
  unfoldable pub call : Op → Bytes → Io (Unit {0})
  call op p w = answered (env.fails w.clock op p) (tick w)

  -- A call that changes the files if it succeeds.
  abbrev pub changing : Op → Bytes → (World → World) → Io (Unit {0})
  changing op p change w = changed (env.fails w.clock op p) (tick (change w)) (tick w)

  -- os.Remove, whose error the callers ignore.
  unfoldable pub remove : Bytes → Io (Unit {0})
  remove p w = (settled (env.fails w.clock op_remove p) (tick (put p none w)) (tick w), ok tt)

  abbrev pub moved : Option Node → Bytes → Bytes → Io (Unit {0})
  moved none p q w = (tick w, err (failure "no such file"))
  moved (some node) p q w = changing op_rename p (λ w. put q (some node) (put p none w)) w

  -- os.Rename of a file.
  unfoldable pub rename : Bytes → Bytes → Io (Unit {0})
  rename p q w = moved (w.files p) p q w

  -- os.OpenFile with O_CREATE and O_TRUNC.
  unfoldable pub create : Bytes → Io (Unit {0})
  create p = changing op_open p (put p (some (regular [])))

  -- The bytes written to an open file.
  unfoldable pub write : Bytes → Bytes → Io (Unit {0})
  write p content = changing op_write p (put p (some (regular content)))

  -- os.ReadFile, as what it would return now.
  abbrev pub reading : World → Bytes → Option Bytes
  reading w p = unless_failed (env.fails w.clock op_read p) (node_bytes (w.files p))

  abbrev pub read_outcome : Option Bytes → Result Fault Bytes
  read_outcome none = err (failure "read")
  read_outcome (some content) = ok content

  unfoldable pub read_file : Bytes → Io Bytes
  read_file p w = (tick w, read_outcome (reading w p))

  abbrev pub optional : Option Node → Option Fault → Result Fault (Option Bytes)
  optional _ (some e) = err e
  optional none none = ok none
  optional (some special) none = err (failure "not a regular file")
  optional (some (regular content)) none = ok (some content)

  -- os.ReadFile, or os.Open for reading, where a file that does not exist is no error.
  unfoldable pub read_optional : Bytes → Io (Option Bytes)
  read_optional p w = (tick w, optional (w.files p) (env.fails w.clock op_read p))

  -- os.OpenFile with O_CREATE, which leaves a file that exists as it is.
  abbrev pub kept_or_empty : Option Node → Node
  kept_or_empty none = regular []
  kept_or_empty (some node) = node

  unfoldable pub open_or_create : Bytes → Io (Unit {0})
  open_or_create p w = changing op_open p (λ v. put p (some (kept_or_empty (v.files p))) v) w
