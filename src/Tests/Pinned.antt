-- ===== src/Tests/Pinned.antt =====
-- The theorems on databases that a reference keeps alive, at a process that opens one and takes a
-- snapshot of it.
use mathlib.Core.List.{Memᴰ}
use rocksdb_ts.Prelude.{◌≡◌, refl, some, none, List, [], ◌∷◌, All, update, arith}
use rocksdb_ts.Host.{Finalizer}
use rocksdb_ts.Machine.{State, External, ok, database, snapshot, native, reference_container}
use rocksdb_ts.Machine.Effects.{read_slice}
use rocksdb_ts.Machine.Macros.{
  create_external, slice_from_buffer_argument, return_external, rocksdb_status_throws,
}
use rocksdb_ts.Database.{rocksdb_open, open_database, hold_reference}
use rocksdb_ts.Database.Snapshots.{rocksdb_snapshot_init, get_snapshot}
use rocksdb_ts.Exports.{exports}
use rocksdb_ts.Ownership.{Room, References, Holds, Held, native_sort}
use rocksdb_ts.Ownership.Reaches.{Step, Reaches}
use rocksdb_ts.Ownership.Pinned.{Respects-Held}
use rocksdb_ts.Demo.{demo, Value}
use rocksdb_ts.Tests.{nth-Memᴰ, opened, cells, key_text}

abbrev path_info : List Value
path_info = Value.buffer key_text ∷ Value.outside 5 ∷ []

abbrev pub second_database : External
second_database = record {
  value = Value.outside 7;
  payload = 7;
  finalizer = Finalizer.rocksdb_finalize;
  hint = 8;
}

abbrev pub second_opened : State
second_opened = record opened {
  cells =
      update (update (update cells 7 (some (native database))) 8 (some (reference_container none)))
        8 (some (reference_container (some (Value.outside 7))));
  next = 9;
  externals = second_database ∷ [];
  references = (8, Value.outside 7) ∷ opened.references;
}

open_returns : rocksdb_open path_info opened ≡ ok (some (Value.outside 7)) second_opened
unfolding rocksdb_open open_database hold_reference slice_from_buffer_argument rocksdb_status_throws
    read_slice create_external
open_returns = refl

abbrev its_snapshot : External
its_snapshot = record {
  value = Value.outside 9;
  payload = 9;
  finalizer = Finalizer.rocksdb_snapshot_finalize;
  hint = 7;
}

abbrev snapped : State
snapped = record second_opened {
  cells = update second_opened.cells 9 (some (native snapshot));
  next = 10;
  externals = its_snapshot ∷ second_database ∷ [];
}

snapshot_returns :
    rocksdb_snapshot_init (Value.outside 7 ∷ []) second_opened ≡ ok (some (Value.outside 9)) snapped
unfolding rocksdb_snapshot_init get_snapshot return_external
snapshot_returns = refl

open_exported : Memᴰ ("rocksdb_open", rocksdb_open) exports
unfolding exports
open_exported = nth-Memᴰ 16 exports ("rocksdb_open", rocksdb_open) refl

pub snapshot_exported : Memᴰ ("rocksdb_snapshot_init", rocksdb_snapshot_init) exports
unfolding exports
snapshot_exported = nth-Memᴰ 67 exports ("rocksdb_snapshot_init", rocksdb_snapshot_init) refl

opened-Room : Room opened
opened-Room = λ p h. ground arith

engine_refers : References
engine_refers = λ v e. (v, e, refl)

pub path_opened : Reaches opened second_opened
path_opened =
    Reaches.further Reaches.reached (Step.method_returns path_info open_exported open_returns)

snapshot_taken : Reaches opened snapped
snapshot_taken =
    Reaches.further path_opened
      (Step.method_returns (Value.outside 7 ∷ []) snapshot_exported snapshot_returns)

Respects-Held_example :
    Held (Value.outside 7) snapped.references × All (Holds snapped) ((7, native_sort database) ∷ [])
unfolding snapshot_taken path_opened
Respects-Held_example =
    Respects-Held (its_snapshot ∷ []) [] second_database refl opened-Room engine_refers
      snapshot_taken ((tt, tt), tt) refl refl
