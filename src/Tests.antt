-- ===== src/Tests.antt =====
-- A small process at the host of `Demo`, and calls in it, for the runs of the theorems.
mod Async
mod Batches
mod Database
mod Experiments
mod Interface
mod Iterators
mod Liveness
mod Options
mod Ownership
mod Pinned
mod Process
mod Safety
use mathlib.Core.List.{Memᴰ}
use rocksdb_ts.Prelude.{
  sym, ℕ, ◌≡◌, refl, true, false, Option, none, some, [], ◌∷◌, List, arith, ◌==◌, if◌then◌else◌,
}
use rocksdb_ts.Host.{Address, Bytes, Encoding, utf8}
use rocksdb_ts.Machine.{
  State, Cell, slice_cell, write_options_cell, read_options_cell, native, reference_container,
  database, options, region,
}
use rocksdb_ts.Machine.Calls.{Encodes}
use rocksdb_ts.Machine.Strings.{HasRoom}
use rocksdb_ts.Database.Strings.{CanWrite, CanRead, PutCall, KeyCall}
use rocksdb_ts.Demo.{demo, argument, Value, Env, write_defaults, read_defaults}

abbrev pub quiet : Env
quiet = record { pending = none; made = 0; settled = [] }

-- A database at 1 with its container at 2, write options at 3, read options at 4, database options
-- at 5, and a slice at 6.
abbrev pub cells : Address → Option Cell
cells p =
    if p == 1
    then some (native database)
    else if p == 2
    then some (reference_container (some (Value.outside 1)))
    else if p == 3
    then some (write_options_cell write_defaults)
    else if p == 4
    then some (read_options_cell read_defaults)
    else if p == 5
    then some (native options)
    else if p == 6
    then some (slice_cell (record { start = region (7 ∷ []); size = 1 }))
    else none

abbrev pub opened : State
opened = record {
  env = quiet;
  lib = record { store = λ k. none; batches = λ p. [] };
  cells = cells;
  next = 7;
  externals = [];
  references = (2, Value.outside 1) ∷ [];
  queued = [];
  logging_enabled = false;
  loggers = [];
}

pub room : HasRoom opened
room = record { unused = λ p h. ground arith }

pub writable : CanWrite opened 1 3 write_defaults
writable = record {
  room = room;
  db_live = refl;
  db_old = omega arith;
  options_live = refl;
  options_old = omega arith;
}

abbrev pub key_text : Bytes
key_text = 107 ∷ []

abbrev pub value_text : Bytes
value_text = 118 ∷ []

pub encoded :
    (enc : Encoding) (n : ℕ) (e : Env) → Encodes ⦃h = demo⦄ enc (Value.text (n ∷ [])) e (n ∷ [])
encoded enc n e = record { measured = refl; copied = refl; fits = omega arith }

abbrev pub put_info : List Value
put_info = Value.outside 1 ∷ Value.text key_text ∷ Value.text value_text ∷ Value.outside 3 ∷ []

abbrev pub get_info : List Value
get_info = Value.outside 1 ∷ Value.text key_text ∷ Value.outside 4 ∷ []

abbrev pub delete_info : List Value
delete_info = Value.outside 1 ∷ Value.text key_text ∷ Value.outside 3 ∷ []

pub put_call : PutCall utf8 put_info quiet 1 3 key_text value_text
put_call = record {
  argv = argument put_info;
  args = refl;
  target = refl;
  key = encoded utf8 107 quiet;
  value = encoded utf8 118 quiet;
  options = refl;
}

pub get_call : (enc : Encoding) → KeyCall enc get_info quiet 1 4 key_text
get_call enc = record {
  argv = argument get_info;
  args = refl;
  target = refl;
  key = encoded enc 107 quiet;
  options = refl;
}

pub readable : CanRead opened 1 4 read_defaults
readable = record {
  room = room;
  db_live = refl;
  db_old = omega arith;
  options_live = refl;
  options_old = omega arith;
}

-- The element at a place of a list.
abbrev nth : {A : Type 0} → ℕ → List A → Option A
nth i [] = none
nth i (x ∷ xs) = elim i [ ℕ.zero ↦ some x | ℕ.suc j ↦ nth j xs ]

pub nth-Memᴰ : {A : Type 0} (i : ℕ) (xs : List A) (x : A) → nth i xs ≡ some x → Memᴰ x xs
nth-Memᴰ i [] x e = elim (not_none e) [ ]
  where
    not_none : {A : Type 0} {x : A} → none ≡ some x → ⊥
    not_none e = ground arith
nth-Memᴰ ℕ.zero (y ∷ xs) x e = Memᴰ.head (same (sym e))
  where
    same : {A : Type 0} {x y : A} → some x ≡ some y → x ≡ y
    same e = ground arith
nth-Memᴰ (ℕ.suc i) (y ∷ xs) x e = Memᴰ.tail (nth-Memᴰ i xs x e)
