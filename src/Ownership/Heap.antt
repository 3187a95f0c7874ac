-- ===== src/Ownership/Heap.antt =====
-- The effects on the native heap: reads change nothing, and `new` and arrays harm no object.
use rocksdb_ts.Prelude.{◌≡◌, refl, Bool, true, false, Option, none, some, arith, update}
use rocksdb_ts.Host.{Host, Address, Memory}
use rocksdb_ts.Machine.{Kind, Cell, Slice, Start, nowhere, region, array, State, chars_cell}
use rocksdb_ts.Machine.Effects.{
  new, load_write_options, load_read_options, load_worker, expect, delete_chars, read_slice,
  slice_bytes, library, library_do, gets, found, require, is_native,
}
use rocksdb_ts.Machine.Macros.{slice_from_string_argument_release}
use rocksdb_ts.Ownership.{shape_of, Steady, After, IsSteady}
use rocksdb_ts.Ownership.Steps.{Steady-refl}
use rocksdb_ts.Ownership.Parts.{Steady-outside}

module _ ⦃h : Host⦄ where
  pub After-found : {A : Type 0} (s : State) (r : Option A) → After (Steady s) (found r s)
  After-found s none = tt
  After-found s (some a) = Steady-refl s

  pub After-require : (s : State) (b : Bool) → After (Steady s) (require b s)
  After-require s true = Steady-refl s
  After-require s false = tt

  pub load_write_options-IsSteady : (p : Address) → IsSteady (load_write_options p)
  unfolding load_write_options
  load_write_options-IsSteady p = record { steady = λ s. After-found s _ }

  pub load_read_options-IsSteady : (p : Address) → IsSteady (load_read_options p)
  unfolding load_read_options
  load_read_options-IsSteady p = record { steady = λ s. After-found s _ }

  pub load_worker-IsSteady : (p : Address) → IsSteady (load_worker p)
  unfolding load_worker
  load_worker-IsSteady p = record { steady = λ s. After-found s _ }

  pub read_slice-IsSteady : (x : Slice) → IsSteady (read_slice x)
  unfolding read_slice
  read_slice-IsSteady x = record { steady = λ s. After-found s (slice_bytes s x) }

  pub expect-IsSteady : (k : Kind) (p : Address) → IsSteady (expect k p)
  unfolding expect
  expect-IsSteady k p = record { steady = λ s. After-require s (is_native k (s.cells p)) }

  pub library-IsSteady :
      {A : Type 0} (f : Memory → h.rocks.Lib → A × h.rocks.Lib) → IsSteady (library f)
  unfolding library
  library-IsSteady f = record { steady = λ s. Steady-outside }

  pub library_do-IsSteady : (f : Memory → h.rocks.Lib → h.rocks.Lib) → IsSteady (library_do f)
  unfolding library_do
  library_do-IsSteady f = record { steady = λ s. Steady-outside }

  pub gets-IsSteady : {A : Type 0} (f : State → A) → IsSteady (gets f)
  gets-IsSteady f = record { steady = λ s. Steady-refl s }

  -- A change within the shape of the object.
  pub Steady-put :
      (s : State) (p : Address) (c : Option Cell)
      → shape_of c ≡ shape_of (s.cells p)
      → Steady s (record s { cells = update s.cells p c })
  Steady-put s p c e = record {
    grows = omega arith;
    lives = λ q k l f. ground arith;
    room = λ m q l. ground (arith, m q);
    refs = λ v x. x;
    same = refl;
  }

  pub Steady-new : (s : State) (c : Cell) → After (Steady s) (new c s)
  unfolding new
  Steady-new s c = record {
    grows = omega arith;
    lives = λ q k l f. ground arith;
    room = λ m q l. ground (arith, m q);
    refs = λ v x. x;
    same = refl;
  }

  pub new-IsSteady : (c : Cell) → IsSteady (new c)
  new-IsSteady c = record { steady = λ s. Steady-new s c }

  After-delete_chars :
      (s : State) (p : Address) (c : Option Cell)
      → s.cells p ≡ c
      → After (Steady s) (delete_chars p s)
  unfolding delete_chars
  After-delete_chars s p none e = rw (e, After) tt
  After-delete_chars s p (some (chars_cell n b)) e =
      rw (e, After)
        (record {
          grows = omega arith;
          lives = λ q k l f. ground arith;
          room = λ m q l. ground (arith, m q);
          refs = λ v x. x;
          same = refl;
        })
  After-delete_chars s p (some _) e = rw (e, After) tt

  After-release :
      (s : State) (x : Slice) (start : Start)
      → x.start ≡ start
      → After (Steady s) (slice_from_string_argument_release x s)
  unfolding slice_from_string_argument_release
  After-release s x nowhere e = rw (e, After) (Steady-refl s)
  After-release s x (region r) e = rw (e, After) (Steady-refl s)
  After-release s x (array p) e = rw (e, After) (After-delete_chars s p (s.cells p) refl)

  pub slice_from_string_argument_release-IsSteady :
      (x : Slice) → IsSteady (slice_from_string_argument_release x)
  slice_from_string_argument_release-IsSteady x = record {
    steady = λ s. After-release s x x.start refl;
  }
