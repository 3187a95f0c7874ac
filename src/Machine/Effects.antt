-- ===== src/Machine/Effects.antt =====
-- The effects: `new` and `delete` on the native heap, reads through pointers, and calls of the
-- library. A pointer that leads to no live object of its type is a fault.
use rocksdb_ts.Prelude.{
  ℕ, suc, Bool, true, false, Option, none, some, [], leb, if◌then◌else◌, length, take, update,
}
use rocksdb_ts.Host.{Host, Address, Bytes, WriteOptions, ReadOptions, Memory}
use rocksdb_ts.Machine.{
  dangling, Kind, kind_eq, nowhere, region, array, Slice, Worker, Cell, slice_cell,
  write_options_cell, read_options_cell, chars_cell, reference_container, worker_cell, native,
  State, ok, fault, M, ◌>>◌,
}

module _ ⦃h : Host⦄ where
  -- `new`: the object stands at a fresh address.
  unfoldable pub new : Cell → M Address
  new c s = ok s.next (record s { cells = update s.cells s.next (some c); next = suc s.next })

  -- The assignment of a whole object that is known to be live.
  abbrev pub put_cell : Address → Option Cell → M (Unit {0})
  put_cell p c s = ok tt (record s { cells = update s.cells p c })

  abbrev as_write_options : Option Cell → Option WriteOptions
  as_write_options (some (write_options_cell o)) = some o
  as_write_options _ = none

  abbrev as_read_options : Option Cell → Option ReadOptions
  as_read_options (some (read_options_cell o)) = some o
  as_read_options _ = none

  abbrev pub as_worker : Option Cell → Option Worker
  as_worker (some (worker_cell w)) = some w
  as_worker _ = none

  abbrev as_container : Option Cell → Option (Option h.napi.Ref)
  as_container (some (reference_container r)) = some r
  as_container _ = none

  abbrev pub is_native : Kind → Option Cell → Bool
  is_native k (some (native j)) = kind_eq k j
  is_native k _ = false

  abbrev is_chars : Option Cell → Bool
  is_chars (some (chars_cell n b)) = true
  is_chars _ = false

  abbrev is_slice : Option Cell → Bool
  is_slice (some (slice_cell x)) = true
  is_slice _ = false

  abbrev pub found : {A : Type 0} → Option A → M A
  found (some a) s = ok a s
  found none s = fault dangling

  abbrev pub require : Bool → M (Unit {0})
  require true s = ok tt s
  require false s = fault dangling

  -- `*options` for the two option structs, and the other objects that the binding reads itself.
  unfoldable pub load_write_options : Address → M WriteOptions
  load_write_options p s = found (as_write_options (s.cells p)) s

  unfoldable pub load_read_options : Address → M ReadOptions
  load_read_options p s = found (as_read_options (s.cells p)) s

  unfoldable pub load_worker : Address → M Worker
  load_worker p s = found (as_worker (s.cells p)) s

  unfoldable pub load_container : Address → M (Option h.napi.Ref)
  load_container p s = found (as_container (s.cells p)) s

  -- A pointer that is handed to the library: it must lead to a live object of its class.
  unfoldable pub expect : Kind → Address → M (Unit {0})
  expect k p s = require (is_native k (s.cells p)) s

  -- `delete`: twice, or at another class, it is a fault. The binding tests for `nullptr` itself.
  unfoldable pub delete_native : Kind → Address → M (Unit {0})
  unfolding expect
  delete_native k p = expect k p >> put_cell p none

  unfoldable pub delete_slice : Address → M (Unit {0})
  delete_slice p s = (require (is_slice (s.cells p)) >> put_cell p none) s

  unfoldable pub delete_write_options : Address → M (Unit {0})
  unfolding load_write_options
  delete_write_options p = load_write_options p >> put_cell p none

  unfoldable pub delete_read_options : Address → M (Unit {0})
  unfolding load_read_options
  delete_read_options p = load_read_options p >> put_cell p none

  unfoldable pub delete_container : Address → M (Unit {0})
  unfolding load_container
  delete_container p = load_container p >> put_cell p none

  -- `delete[]`
  unfoldable pub delete_chars : Address → M (Unit {0})
  delete_chars p s = (require (is_chars (s.cells p)) >> put_cell p none) s

  -- The bytes of a character array, as far as they were written.
  abbrev written : ℕ → Option Cell → Option Bytes
  written n (some (chars_cell size b)) = if leb n (length b) then some (take n b) else none
  written n _ = none

  -- The bytes that a slice shows, if its memory is alive.
  unfoldable pub slice_bytes : State → Slice → Option Bytes
  slice_bytes s x = elim x.start [
    | nowhere ↦ some []
    | region r ↦ h.napi.region_bytes r x.size s.env
    | array p ↦ written x.size (s.cells p)
  ]

  unfoldable pub read_slice : Slice → M Bytes
  unfolding slice_bytes
  read_slice x s = found (slice_bytes s x) s

  abbrev memory_at : State → Option Cell → Option Bytes
  unfolding slice_bytes
  memory_at s (some (slice_cell x)) = slice_bytes s x
  memory_at s _ = none

  -- What the library can read where an option struct points to a slice.
  unfoldable pub memory : State → Memory
  unfolding memory_at
  memory s p = memory_at s (s.cells p)

  -- A call of the library.
  unfoldable pub library : {A : Type 0} → (Memory → h.rocks.Lib → A × h.rocks.Lib) → M A
  unfolding memory
  library f s = let (a, l) = f (memory s) s.lib in ok a (record s { lib = l })

  unfoldable pub library_do : (Memory → h.rocks.Lib → h.rocks.Lib) → M (Unit {0})
  unfolding memory
  library_do f s = ok tt (record s { lib = f (memory s) s.lib })

  abbrev pub gets : {A : Type 0} → (State → A) → M A
  gets f s = ok (f s) s
