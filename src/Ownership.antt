-- ===== src/Ownership.antt =====
-- Who frees what: the objects that the engine will free by running finalizers, and what a method
-- may do to the heap without harm to them.
pub mod Databases
pub mod Finalizers
pub mod Finishing
pub mod Fresh
pub mod Heap
pub mod Async
pub mod Bounds
pub mod Batches
pub mod Database
pub mod Iterators
pub mod Open
pub mod ReadOptions
pub mod WriteOptions
pub mod Keeps
pub mod Lasts
pub mod Liveness
pub mod Making
pub mod Options
pub mod Parts
pub mod Pinned
pub mod Process
pub mod Reaches
pub mod Registers
pub mod Rules
pub mod Spared
pub mod Steps
pub mod Table
pub mod Texts
pub mod Workers
use rocksdb_ts.Prelude.{
  ℕ, ◌<◌, ◌≤◌, ◌≡◌, ◌≢◌, ◌⊎◌, ◌-◌, Bool, true, Option, none, some, List, [], ◌∷◌, ◌++◌, ◌==◌,
  if◌then◌else◌, All, length,
}
use rocksdb_ts.Host.{Host, Address, Bytes, Encoding, Finalizer}
use rocksdb_ts.Machine.{
  Kind, Cell, slice_cell, write_options_cell, read_options_cell, chars_cell, reference_container,
  worker_cell, native, External, Worker, State, Outcome, ok, returned, fault, M, Fault, overflow,
}

-- The classes of the objects that finalizers free. A temporary array has none.
pub data Sort : Type 0 where
  slice_sort write_options_sort read_options_sort container_sort worker_sort : Sort
  native_sort : Kind → Sort

module _ ⦃h : Host⦄ where
  abbrev pub sort_of : Option Cell → Option Sort
  sort_of none = none
  sort_of (some (slice_cell x)) = some slice_sort
  sort_of (some (write_options_cell o)) = some write_options_sort
  sort_of (some (read_options_cell o)) = some read_options_sort
  sort_of (some (chars_cell n b)) = none
  sort_of (some (reference_container r)) = some container_sort
  sort_of (some (worker_cell w)) = some worker_sort
  sort_of (some (native k)) = some (native_sort k)

  -- What a worker keeps for its life, once it is constructed.
  pub record Handles : Type 0 where
    pub promise : Option h.napi.Value
    pub deferred : Option h.napi.Deferred
    pub async_work : Option h.napi.Work
    pub db : Address
    pub batch : Address
    pub options : Address

  abbrev pub handles : Worker → Handles
  handles w = record {
    promise = w.promise;
    deferred = w.deferred;
    async_work = w.async_work;
    db = w.db;
    batch = w.batch;
    options = w.options;
  }

  -- What an object keeps: its class, and of a worker its handles.
  abbrev pub Shape : Type 0
  Shape = Sort × Option Handles

  abbrev pub shape_of : Option Cell → Option Shape
  shape_of none = none
  shape_of (some (slice_cell x)) = some (slice_sort, none)
  shape_of (some (write_options_cell o)) = some (write_options_sort, none)
  shape_of (some (read_options_cell o)) = some (read_options_sort, none)
  shape_of (some (chars_cell n b)) = none
  shape_of (some (reference_container r)) = some (container_sort, none)
  shape_of (some (worker_cell w)) = some (worker_sort, some (handles w))
  shape_of (some (native k)) = some (native_sort k, none)

  -- The objects that are there keep their shapes.
  abbrev pub Lives : State → State → Type 0
  Lives s t =
      (p : Address) (k : Shape)
      → p < s.next
      → shape_of (s.cells p) ≡ some k
      → shape_of (t.cells p) ≡ some k

  -- An object that a finalizer frees: its address and its class.
  abbrev pub Claim : Type 0
  Claim = Address × Sort

  abbrev pub unless_null : Address → Sort → List Claim
  unless_null p k = if p == 0 then [] else (p, k) ∷ []

  -- What a finalizer frees, given its data and its hint.
  abbrev pub freed : Finalizer → Address → Address → List Claim
  freed Finalizer.rocksdb_slice_finalize p hint = unless_null p slice_sort
  freed Finalizer.rocksdb_write_options_finalize p hint = unless_null p write_options_sort
  freed Finalizer.rocksdb_options_finalize p hint = unless_null p (native_sort Kind.options)
  freed Finalizer.rocksdb_finalize p hint =
      unless_null hint container_sort ++ unless_null p (native_sort Kind.database)
  freed Finalizer.rocksdb_iterator_finalize p hint = unless_null p (native_sort Kind.iterator)
  freed Finalizer.rocksdb_batch_finalize p hint = unless_null p (native_sort Kind.batch)
  freed Finalizer.rocksdb_batch_write_async_finalize p hint = unless_null p worker_sort
  freed Finalizer.rocksdb_snapshot_finalize p hint = unless_null p (native_sort Kind.snapshot)
  freed Finalizer.rocksdb_read_options_finalize p hint = unless_null p read_options_sort

  abbrev pub claims : List External → List Claim
  claims [] = []
  claims (x ∷ xs) = freed x.finalizer x.payload x.hint ++ claims xs

  -- The object is live, has its class, and lies below the unused addresses.
  abbrev pub Holds : State → Claim → Type 0
  Holds s c = (sort_of (s.cells c.0) ≡ some c.1) × (c.0 < s.next)

  -- No object is freed twice.
  abbrev pub Distinct : List Claim → Type 0
  Distinct [] = Unit
  Distinct (c ∷ cs) = All (λ d. c.0 ≢ d.0) cs × Distinct cs

  -- Every object that the engine's finalizers free is live, and no two of them free the same one.
  pub record Sound (s : State) : Type 0 where
    pub held : All (Holds s) (claims s.externals)
    pub once : Distinct (claims s.externals)

  -- No object lives at an address that `new` has not given out yet.
  abbrev pub Room : State → Type 0
  Room s = (p : Address) → s.next ≤ p → shape_of (s.cells p) ≡ none

  -- A value that a strong reference keeps alive.
  abbrev pub Held : h.napi.Value → List (Address × h.napi.Value) → Type 0
  Held v [] = ⊥
  Held v ((c, w) ∷ rest) = (v ≡ w) ⊎ Held v rest

  -- What the engine keeps: `napi_create_reference` is refused for no external.
  abbrev pub References : Type 0
  References =
      (v : h.napi.Value) (e : h.napi.Env)
      → (r : h.napi.Ref) × (d : h.napi.Env) × (h.napi.create_reference v 1 e ≡ some (r, d))

  abbrev pub LiveDatabase : State → Address → Type 0
  LiveDatabase s db =
      (shape_of (s.cells db) ≡ some (native_sort Kind.database, none)) × (db < s.next)

  -- What keeps a database alive: the external of a database is referenced, and the database of a
  -- snapshot is live.
  abbrev pub Registered : State → Finalizer → h.napi.Value → Address → Type 0
  Registered s Finalizer.rocksdb_finalize v hint = Held v s.references
  Registered s Finalizer.rocksdb_snapshot_finalize v hint = LiveDatabase s hint
  Registered s _ v hint = Unit

  -- A piece of code may add objects, change them within their shape and free arrays.
  pub record Steady (s t : State) : Type 0 where
    pub grows : s.next ≤ t.next
    pub lives : Lives s t
    pub room : Room s → Room t
    pub refs : (v : h.napi.Value) → Held v s.references → Held v t.references
    pub same : t.externals ≡ s.externals

  -- Objects made since a state, none of them twice.
  pub record Made (s t : State) (cs : List Claim) : Type 0 where
    pub held : All (Holds t) cs
    pub since : All (λ c. s.next ≤ c.0) cs
    pub once : Distinct cs

  -- A method may also register externals, over objects that it has made.
  pub record Tame (s t : State) : Type 0 where
    pub grows : s.next ≤ t.next
    pub lives : Lives s t
    pub room : Room s → Room t
    pub refs : (v : h.napi.Value) → Held v s.references → Held v t.references
    pub added : List External
    pub registered : t.externals ≡ added ++ s.externals
    pub made : Made s t (claims added)
    pub pinned : References → Room s → All (λ x. Registered t x.finalizer x.value x.hint) added

  -- What N-API documents of `napi_get_value_string_*`: with the final zero, it writes no more than
  -- the size of the buffer that it is told.
  abbrev pub TextsFit : Type 0
  TextsFit =
      (enc : Encoding) (v : h.napi.Value) (n : ℕ) (e : h.napi.Env) (b : Bytes)
      → h.napi.string_copy enc v n e ≡ some b
      → length b ≤ n - 1

  -- The code may be led to a dead object or an unset variable, and writes past no array.
  abbrev pub Allowed : Fault → Type 0
  Allowed overflow = ¬ TextsFit
  Allowed _ = Unit

  abbrev pub After : {A : Type 0} → (State → Type 0) → Outcome A → Type 0
  After P (ok a t) = P t
  After P (returned t) = P t
  After P (fault e) = Allowed e

  pub record IsSteady {A : Type 0} (m : M A) : Type 0 where
    pub steady : (s : State) → After (Steady s) (m s)

  pub record IsTame {A : Type 0} (m : M A) : Type 0 where
    pub tame : (s : State) → After (Tame s) (m s)
