-- ===== src/Safety.antt =====
-- Calls with arguments of the declared types: what such arguments are, what the parts of a method
-- leave of the heap, and what it is to come to an end.
pub mod Arguments
pub mod Options
pub mod Parts
pub mod Async
pub mod Open
pub mod Process
pub mod Table
pub mod Texts
pub mod Strings
pub mod Database
pub mod Iterators
pub mod Steps
pub mod Rules
use rocksdb_ts.Prelude.{ℕ, suc, ◌≤◌, ◌<◌, ◌≡◌, Option, some, List, [], ◌∷◌, ◌==◌, length}
use rocksdb_ts.Host.{Host, Address, Bytes, Encoding, utf8, return_null}
use rocksdb_ts.Async.{promise_id}
use rocksdb_ts.Machine.{State, Outcome, ok, returned, fault, M, Slice, array, chars_cell, Kind}
use rocksdb_ts.Machine.Effects.{slice_bytes}
use rocksdb_ts.Ownership.{
  Sort, slice_sort, write_options_sort, read_options_sort, native_sort, Holds, TextsFit,
}
use rocksdb_ts.Interface.{
  Context, batch_context, slice_context, snapshot_context, iterator_context, database_context,
  options_context, read_options_context, write_options_context,
}
use rocksdb_ts.Interface.Parameters.{
  ParameterType, context, buffer, string, boolean, number, bigint,
}

-- The class of the object of a context.
abbrev pub class_of : Context → Sort
class_of batch_context = native_sort Kind.batch
class_of slice_context = slice_sort
class_of snapshot_context = native_sort Kind.snapshot
class_of iterator_context = native_sort Kind.iterator
class_of database_context = native_sort Kind.database
class_of options_context = native_sort Kind.options
class_of read_options_context = read_options_sort
class_of write_options_context = write_options_sort

module _ ⦃h : Host⦄ where
  -- The outcome is a value or an early return, and no fault.
  abbrev pub Ends : {A : Type 0} → Outcome A → Type 0
  Ends (ok a t) = Unit
  Ends (returned t) = Unit
  Ends (fault e) = ⊥

  -- The same, and what is said of the value and of the state behind it, if it goes on.
  abbrev pub Leads : {A : Type 0} → (A → State → Type 0) → Outcome A → Type 0
  Leads P (ok a t) = P a t
  Leads P (returned t) = Unit
  Leads P (fault e) = ⊥

  -- What the code relies on: NAPI_STATUS_THROWS ends the method, and a text with its final zero
  -- takes no more than the size that N-API is told.
  pub record Documented : Type 0 where
    pub returns : (e : h.napi.Env) → (h.napi.on_bad_status e).0 ≡ return_null
    pub fits : TextsFit

  -- The engine refuses none of the calls that construct a promise in this state.
  pub record Supplies (s : State) : Type 0 where
    pub deferred : h.napi.Deferred
    pub promise : h.napi.Value
    pub id : h.napi.Value
    pub work : h.napi.Work
    pub env1 : h.napi.Env
    pub env2 : h.napi.Env
    pub env3 : h.napi.Env
    pub promised : h.napi.create_promise s.env ≡ some (deferred, promise, env1)
    pub named : h.napi.create_string utf8 promise_id env1 ≡ some (id, env2)
    pub worked : h.napi.create_async_work id s.next env2 ≡ some (work, env3)

  -- A value over an object of the class, if it is a value over anything.
  pub record Points (s : State) (k : Sort) (v : h.napi.Value) : Type 0 where
    pub points :
        (e : h.napi.Env) (p : Address) → h.napi.get_value_external v e ≡ some p → Holds s (p, k)

  -- A value whose bytes can be read, if it is a buffer.
  pub record IsBuffer (v : h.napi.Value) : Type 0 where
    pub readable :
        (e d : h.napi.Env) (r : h.napi.Region) (n : ℕ)
        → h.napi.get_buffer_info v e ≡ some (r, n)
        → (b : Bytes) × (h.napi.region_bytes r n d ≡ some b)

  -- A value that has a length as a string.
  pub record IsText (v : h.napi.Value) : Type 0 where
    pub measured :
        (enc : Encoding) (e : h.napi.Env) → (n : ℕ) × (h.napi.string_length enc v e ≡ some n)

  -- The value is one of the parameter's type, as far as the code relies on it: the macros test the
  -- type of a number and of a boolean themselves.
  abbrev pub IsArgument : State → ParameterType → h.napi.Value → Type 0
  IsArgument s (context c) v = Points s (class_of c) v
  IsArgument s buffer v = IsBuffer v
  IsArgument s string v = IsText v
  IsArgument s boolean v = Unit
  IsArgument s number v = Unit
  IsArgument s bigint v = Unit

  abbrev pub AreArguments : State → List ParameterType → (ℕ → h.napi.Value) → ℕ → Type 0
  AreArguments s [] argv i = Unit
  AreArguments s (τ ∷ τs) argv i = IsArgument s τ (argv i) × AreArguments s τs argv (suc i)

  -- The arguments that N-API finds in the call, when it is asked for as many as there are parameters.
  pub record IsCall (s : State) (τs : List ParameterType) (info : h.napi.Info) : Type 0 where
    pub arguments :
        (n : ℕ) (e : h.napi.Env) (argv : ℕ → h.napi.Value)
        → length τs ≤ n
        → h.napi.get_cb_info n info e ≡ some argv
        → AreArguments s τs argv 0

  -- No object that is there is changed.
  pub record Calm (s t : State) : Type 0 where
    pub grows : s.next ≤ t.next
    pub same : (p : Address) → p < s.next → t.cells p ≡ s.cells p

  -- The code ends, and leaves all objects of the state as they are.
  pub record Reads (s : State) {A : Type 0} (m : M A) : Type 0 where
    pub reads : (t : State) → Calm s t → Leads (λ a. Calm s) (m t)

  -- The code ends, while all objects of the state are as they were.
  pub record Safe (s : State) {A : Type 0} (m : M A) : Type 0 where
    pub safe : (t : State) → Calm s t → Ends (m t)

  -- The code ends in the state.
  pub record EndsIn (s : State) {A : Type 0} (m : M A) : Type 0 where
    pub ends : Ends (m s)

  -- The bytes of the slice can be read while all objects are as they were.
  pub record Readable (s : State) (x : Slice) : Type 0 where
    pub bytes : (t : State) → Calm s t → (b : Bytes) × (slice_bytes t x ≡ some b)

  -- The slice shows an array that was made between the two states.
  pub record Temporary (s t : State) (x : Slice) : Type 0 where
    pub calm : Calm s t
    pub place : Address
    pub size : ℕ
    pub content : Bytes
    pub shown : x.start ≡ array place
    pub since : s.next ≤ place
    pub old : place < t.next
    pub live : t.cells place ≡ some (chars_cell size content)
