-- ===== src/Tests/Ownership.antt =====
-- The theorems on ownership at the small process of `Tests`.
use rocksdb_ts.Prelude.{
  ℕ, zero, suc, ◌-◌, ◌≤◌, ◌≡◌, ◌≢◌, subst, length, take, Option, none, some, List, [], ◌∷◌, All,
  arith, update,
}
use rocksdb_ts.Host.{Bytes, Finalizer}
use rocksdb_ts.Machine.{State, External, fault, overflow, slice_cell, region}
use rocksdb_ts.Exports.{exports}
use rocksdb_ts.Ownership.{Sound, After}
use rocksdb_ts.Ownership.Keeps.{exports-Sound}
use rocksdb_ts.Ownership.Bounds.{exports-overflow}
use rocksdb_ts.Ownership.Reaches.{Reaches}
use rocksdb_ts.Demo.{demo, Value, option_map, to_text}
use rocksdb_ts.Tests.{opened, cells}

opened-Sound : Sound opened
opened-Sound = record { held = tt; once = tt }

exports-Sound_example : All (λ m. After Sound (m.1 (Value.outside 1 ∷ []) opened)) exports
exports-Sound_example = exports-Sound opened (Value.outside 1 ∷ []) opened-Sound

-- The externals of the database with its container and of the slice.
abbrev database_external : External
database_external = record {
  value = Value.outside 1;
  payload = 1;
  finalizer = Finalizer.rocksdb_finalize;
  hint = 2;
}

abbrev slice_external : External
slice_external = record {
  value = Value.outside 6;
  payload = 6;
  finalizer = Finalizer.rocksdb_slice_finalize;
  hint = 0;
}

abbrev owned : State
owned = record opened { externals = database_external ∷ slice_external ∷ [] }

-- `rocksdb_slice(buffer)`, whose result then dies.
abbrev slice_info : List Value
slice_info = Value.buffer (9 ∷ []) ∷ []

abbrev sliced : State
sliced = record opened {
  cells = update cells 7 (some (slice_cell (record { start = region (9 ∷ []); size = 1 })));
  next = 8;
  externals =
      record {
        value = Value.outside 7;
        payload = 7;
        finalizer = Finalizer.rocksdb_slice_finalize;
        hint = 0;
      }
      ∷ [];
}

-- The small engine cuts a text to what fits.
take_fits : (n : ℕ) (b : Bytes) → length (take n b) ≤ n
take_fits zero b = omega arith
take_fits (suc n) [] = omega arith
take_fits (suc n) (x ∷ b) = let l = take_fits n b in omega arith

abbrev size_of : Option Bytes → ℕ
size_of none = 0
size_of (some b) = length b

pub cut : (n : ℕ) (v : Option Bytes) (b : Bytes) → option_map (take n) v ≡ some b → length b ≤ n
cut n none b e = subst (λ o. size_of o ≤ n) e (omega arith)
cut n (some c) b e = subst (λ o. size_of o ≤ n) e (take_fits n c)

exports-overflow_example :
    All (λ m. m.1 (Value.outside 1 ∷ Value.text (9 ∷ []) ∷ []) opened ≢ fault overflow) exports
exports-overflow_example =
    exports-overflow opened (Value.outside 1 ∷ Value.text (9 ∷ []) ∷ [])
      λ enc v n e b q. cut (n - 1) (to_text v) b q
