-- ===== src/Tests/Async.antt =====
-- The theorems on the asynchronous write at the small process of `Tests`.
use rocksdb_ts.Prelude.{◌≡◌, refl, false, none, some, List, [], ◌∷◌, arith, update}
use rocksdb_ts.Host.{Finalizer}
use rocksdb_ts.Machine.{
  dangling, indeterminate, fatal_error, Worker, worker_cell, native, batch, State, ok, fault, ◌>>◌,
}
use rocksdb_ts.Machine.Effects.{memory}
use rocksdb_ts.Batches.{rocksdb_batch_write, rocksdb_batch_finalize}
use rocksdb_ts.Async.{
  promise_id, begin, begin_enter, finish, rocksdb_batch_write_async,
  rocksdb_batch_write_async_finalize,
}
use rocksdb_ts.Async.Settles.{Queued, begun}
use rocksdb_ts.Async.Promises.{
  WriteCall, begin-rocksdb_batch_write, finish-begin, finalize-executing, begin-freed_batch,
}
use rocksdb_ts.Async.Start.{Accepts, fresh, start_success, start_refused}
use rocksdb_ts.Demo.{demo, throw, argument, Value, Status, write_defaults}
use rocksdb_ts.Tests.{quiet, opened, cells, key_text, value_text}

-- A batch at 8 that puts a record, and a worker for it at 7.
abbrev worker : Worker
worker = record {
  success = false;
  executing = false;
  promise = some (Value.promise 0);
  deferred = some 0;
  async_work = some 1;
  status = Status.fine;
  db = 1;
  batch = 8;
  options = 3;
}

abbrev pub working : State
working = record opened {
  lib = record {
    store = λ k. none;
    batches = update (λ p. []) 8 ((key_text, some value_text) ∷ []);
  };
  cells = update (update cells 7 (some (worker_cell worker))) 8 (some (native batch));
  next = 9;
}

worker-Queued : Queued working 7 worker write_defaults
worker-Queued = record { live = refl; db_live = refl; batch_live = refl; options_live = refl }

abbrev pub write_info : List Value
write_info = Value.outside 1 ∷ Value.outside 8 ∷ Value.outside 3 ∷ []

pub write_call : WriteCall write_info quiet 1 8 3
write_call = record {
  argv = argument write_info;
  args = refl;
  target = refl;
  batch = refl;
  options = refl;
}

begin-rocksdb_batch_write_example :
    (t : State) × (u : State) × (begin 7 working ≡ ok tt t)
    × (rocksdb_batch_write write_info working ≡ ok none u)
    × (t.lib ≡ u.lib)
    × (t.env ≡ quiet)
    × (u.env ≡ quiet)
begin-rocksdb_batch_write_example =
    begin-rocksdb_batch_write working 7 worker write_defaults worker-Queued write_call

finish-begin_example : (begin 7 >> finish 7) working ≡ (
    let r = demo.rocks.write (memory working) 1 write_defaults 8 working.lib in
    ok tt (record working {
      env = record quiet { settled = (0, Value.undefined) ∷ [] };
      lib = r.1;
      cells = update working.cells 7 (some (worker_cell (begun worker r.0)));
    }))
finish-begin_example = finish-begin working 7 worker write_defaults 0 worker-Queued refl refl

finalize-executing_example :
    (begin_enter 7 >> rocksdb_batch_write_async_finalize 7) working ≡ fault fatal_error
finalize-executing_example = finalize-executing working 7 worker 1 (λ e. omega arith) refl refl refl

begin-freed_batch_example : (rocksdb_batch_finalize 8 >> begin 7) working ≡ fault dangling
begin-freed_batch_example =
    begin-freed_batch working 7 worker write_defaults worker-Queued (λ e. omega arith)

abbrev pub accepts : Accepts quiet 9
accepts = record {
  deferred = 0;
  promise = Value.promise 0;
  id = Value.text promise_id;
  work = 1;
  env1 = record quiet { made = 1 };
  env2 = record quiet { made = 1 };
  env3 = record quiet { made = 2 };
  env4 = record quiet { made = 2 };
  env5 = record quiet { made = 2 };
  promised = refl;
  named = refl;
  worked = refl;
  added = refl;
  queued = refl;
}

start_success_example :
    (t : State) × (rocksdb_batch_write_async write_info working ≡ ok (some accepts.promise) t)
    × Queued t 9 (fresh accepts 1 8 3) write_defaults
    × (t.lib ≡ working.lib)
    × (t.queued ≡ 9 ∷ [])
    × (t.externals
        ≡ record {
          value = accepts.promise;
          payload = 9;
          finalizer = Finalizer.rocksdb_batch_write_async_finalize;
          hint = 0;
        }
          ∷ [])
start_success_example =
    start_success working write_call accepts refl (omega arith) refl (omega arith) refl
      (omega arith)

-- An exception is pending, with which the small engine makes no promise.
abbrev refusing : State
refusing = record working { env = throw (b'x' ∷ []) quiet }

refused_call : WriteCall write_info refusing.env 1 8 3
refused_call = record {
  argv = argument write_info;
  args = refl;
  target = refl;
  batch = refl;
  options = refl;
}

start_refused_example : rocksdb_batch_write_async write_info refusing ≡ fault indeterminate
start_refused_example = start_refused refusing refused_call refl refl
