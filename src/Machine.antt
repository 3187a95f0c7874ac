-- ===== src/Machine.antt =====
-- The state of the process under a method of the binding, and the effects that a method is made of:
-- the heap of native objects, the early return of NAPI_STATUS_THROWS, and undefined behaviour.
pub mod Calls
pub mod Effects
pub mod Macros
pub mod Strings
use rocksdb_ts.Prelude.{ℕ, Bool, true, false, Option, List}
use rocksdb_ts.Host.{Host, Address, Bytes, Finalizer, WriteOptions, ReadOptions}

-- Why the process has no defined behaviour any more, or ends.
pub data Fault : Type 0 where
  dangling indeterminate overflow fatal_error : Fault

-- The classes of the library whose objects the binding creates, uses and deletes.
pub data Kind : Type 0 where
  options database iterator batch snapshot : Kind

abbrev pub kind_eq : Kind → Kind → Bool
kind_eq options options = true
kind_eq database database = true
kind_eq iterator iterator = true
kind_eq batch batch = true
kind_eq snapshot snapshot = true
kind_eq _ _ = false

module _ ⦃h : Host⦄ where
  -- The memory of a slice: a JavaScript buffer's, a character array of the binding, or none, at a
  -- null pointer with size 0.
  pub data Start : Type 0 where
    nowhere : Start
    region : h.napi.Region → Start
    array : Address → Start

  -- `rocksdb::Slice`
  pub record Slice : Type 0 where
    pub start : Start
    pub size : ℕ

  -- `BatchWritePromise` with its base `Promise`. A handle is `none` until the constructor sets it.
  pub record Worker : Type 0 where
    pub success : Bool
    pub executing : Bool
    pub promise : Option h.napi.Value
    pub deferred : Option h.napi.Deferred
    pub async_work : Option h.napi.Work
    pub status : h.rocks.Status
    pub db : Address
    pub batch : Address
    pub options : Address

  -- What a live address of the native heap holds. Of an array it is the size and what was written.
  pub data Cell : Type 0 where
    slice_cell : Slice → Cell
    write_options_cell : WriteOptions → Cell
    read_options_cell : ReadOptions → Cell
    chars_cell : ℕ → Bytes → Cell
    reference_container : Option h.napi.Ref → Cell
    worker_cell : Worker → Cell
    native : Kind → Cell

  -- A value that the engine holds with native data: it runs the finalizer when the value dies.
  pub record External : Type 0 where
    pub value : h.napi.Value
    pub payload : Address
    pub finalizer : Finalizer
    pub hint : Address

  -- `next` is the next address that `new` gives out. The lists record what the engine was told:
  -- the externals, the strong references (each with the container that holds it and the value that
  -- it keeps alive), and the workers that are queued.
  pub record State : Type 0 where
    pub env : h.napi.Env
    pub lib : h.rocks.Lib
    pub cells : Address → Option Cell
    pub next : Address
    pub externals : List External
    pub references : List (Address × h.napi.Value)
    pub queued : List Address
    pub logging_enabled : Bool
    pub loggers : h.logging.Loggers

  -- A function goes on with a value, has returned early (NULL), or has no defined behaviour.
  pub data Outcome (A : Type 0) : Type 0 where
    ok : A → State → Outcome A
    returned : State → Outcome A
    fault : Fault → Outcome A

  abbrev pub M : Type 0 → Type 0
  M A = State → Outcome A

  abbrev pub pure : {A : Type 0} → A → M A
  pure = ok

  abbrev pub and_then : {A B : Type 0} → Outcome A → (A → M B) → Outcome B
  and_then (ok a s) k = k a s
  and_then (returned s) k = returned s
  and_then (fault e) k = fault e

  infixl 5 ◌>>=◌ ◌>>◌
  abbrev pub ◌>>=◌ : {A B : Type 0} → M A → (A → M B) → M B
  ◌>>=◌ m k s = and_then (m s) k

  abbrev pub ◌>>◌ : {A B : Type 0} → M A → M B → M B
  m >> n = m >>= λ _. n

  -- The end of a void function: the caller goes on, also after an early return.
  abbrev pub end_call : Outcome (Unit {0}) → Outcome (Unit {0})
  end_call (ok a s) = ok a s
  end_call (returned s) = ok tt s
  end_call (fault e) = fault e

  abbrev pub call : M (Unit {0}) → M (Unit {0})
  call m s = end_call (m s)

  -- An exported method: its arguments, and the value that it returns, `none` for NULL.
  abbrev pub Method : Type 0
  Method = h.napi.Info → M (Option h.napi.Value)
