-- ===== src/Tests/Batches.antt =====
-- The theorem on batches at the small process of `Tests`.
use rocksdb_ts.Prelude.{◌≡◌, refl, none, some, List, [], ◌∷◌, arith, update}
use rocksdb_ts.Host.{utf8, latin1}
use rocksdb_ts.Machine.{native, batch, State, ok}
use rocksdb_ts.Batches.{rocksdb_batch_write}
use rocksdb_ts.Batches.Calls.{
  BatchPutCall, BatchKeyCall, HasBatch, rocksdb_batch_put_string_lem,
  rocksdb_batch_delete_latin1_lem,
}
use rocksdb_ts.Batches.Replay.{Edit, Fills, rocksdb_batch_write-Fills}
use rocksdb_ts.Async.Promises.{WriteCall}
use rocksdb_ts.Demo.{demo, demo_batches, argument, Value}
use rocksdb_ts.Tests.{quiet, opened, cells, key_text, value_text, encoded}

-- An empty batch at 7.
abbrev filling : State
filling = record opened { cells = update cells 7 (some (native batch)); next = 8 }

filling-HasBatch : HasBatch filling 7
filling-HasBatch = record {
  room = record { unused = λ p h. ground arith };
  live = refl;
  old = omega arith;
}

abbrev batch_put_info : List Value
batch_put_info = Value.outside 7 ∷ Value.text key_text ∷ Value.text value_text ∷ []

batch_put_call : BatchPutCall utf8 batch_put_info quiet 7 key_text value_text
batch_put_call = record {
  argv = argument batch_put_info;
  args = refl;
  target = refl;
  key = encoded utf8 107 quiet;
  value = encoded utf8 118 quiet;
}

-- After `batch.put("k", "v")`.
abbrev filled : State
filled = record filling {
  lib = (demo.rocks.batch_put 7 key_text value_text filling.lib).1;
  next = 10;
}

filled-HasBatch : HasBatch filled 7
filled-HasBatch = record {
  room = record { unused = λ p h. ground arith };
  live = refl;
  old = omega arith;
}

abbrev batch_delete_info : List Value
batch_delete_info = Value.outside 7 ∷ Value.text (109 ∷ []) ∷ []

batch_delete_call : BatchKeyCall latin1 batch_delete_info quiet 7 (109 ∷ [])
batch_delete_call = record {
  argv = argument batch_delete_info;
  args = refl;
  target = refl;
  key = encoded latin1 109 quiet;
}

-- After `batch.delete("m")`.
abbrev filled_twice : State
filled_twice = record filled {
  lib = (demo.rocks.batch_delete 7 (109 ∷ []) filled.lib).1;
  next = 11;
}

filling-Fills :
    Fills 7 filling (Edit.put key_text value_text ∷ Edit.erase (109 ∷ []) ∷ []) filled_twice
filling-Fills =
    Fills.call_delete_latin1
      (Fills.call_put Fills.start batch_put_call refl
        (rocksdb_batch_put_string_lem filling filling-HasBatch batch_put_call))
      batch_delete_call refl
      (rocksdb_batch_delete_latin1_lem filled filled-HasBatch batch_delete_call)

abbrev batch_write_info : List Value
batch_write_info = Value.outside 1 ∷ Value.outside 7 ∷ Value.outside 3 ∷ []

written_batch : WriteCall batch_write_info quiet 1 7 3
written_batch = record {
  argv = argument batch_write_info;
  args = refl;
  target = refl;
  batch = refl;
  options = refl;
}

rocksdb_batch_write-Fills_example :
    (u : State) × (rocksdb_batch_write batch_write_info filled_twice ≡ ok none u)
    × (u.lib.store key_text ≡ some value_text)
    × (u.cells ≡ filling.cells)
rocksdb_batch_write-Fills_example =
    rocksdb_batch_write-Fills demo_batches key_text filling-HasBatch refl filling-Fills
      written_batch refl refl refl
