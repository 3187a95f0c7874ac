-- ===== src/Tests/Liveness.antt =====
-- The theorem on the promise of an asynchronous write, at a small process.
use rocksdb_ts.Prelude.{◌≡◌, refl, Bool, false, true, none, some, [], ◌∷◌, update, arith}
use rocksdb_ts.Host.{Finalizer}
use rocksdb_ts.Machine.{State, Worker, worker_cell, ok}
use rocksdb_ts.Machine.Macros.{make_value, tell}
use rocksdb_ts.Async.{
  rocksdb_batch_write_async, finish, begin_enter, new_batch_write_promise, construct_promise,
  get_promise, add_finalizer, start,
}
use rocksdb_ts.Async.Promises.{settled}
use rocksdb_ts.Async.Start.{fresh}
use rocksdb_ts.Ownership.{Sound}
use rocksdb_ts.Ownership.Reaches.{Step, Reaches}
use rocksdb_ts.Ownership.Liveness.{Reaches-finish}
use rocksdb_ts.Demo.{demo, Env, Value, Status}
use rocksdb_ts.Tests.Async.{working, write_info, write_call, accepts}

abbrev w2 : Worker
w2 = fresh accepts 0 0 0

abbrev w1 : Worker
w1 = record w2 { async_work = none }

abbrev w0 : Worker
w0 = record w1 { promise = none; deferred = none }

-- The process after the call, and after the worker has begun.
abbrev called : State
called = record working {
  env = accepts.env5;
  cells =
      update
        (update (update (update working.cells 9 (some (worker_cell w0))) 9 (some (worker_cell w1)))
          9 (some (worker_cell w2)))
        9 (some (worker_cell (fresh accepts 1 8 3)));
  next = 10;
  externals =
      record {
        value = accepts.promise;
        payload = 9;
        finalizer = Finalizer.rocksdb_batch_write_async_finalize;
        hint = 0;
      }
      ∷ [];
  queued = 9 ∷ [];
}

abbrev entered : State
entered = record called {
  cells =
      update called.cells 9
        (some (worker_cell (record (fresh accepts 1 8 3) { executing = true })));
}

call_returns : rocksdb_batch_write_async write_info working ≡ ok (some accepts.promise) called
unfolding rocksdb_batch_write_async new_batch_write_promise construct_promise get_promise
    add_finalizer start make_value tell
call_returns = refl

enters : begin_enter 9 called ≡ ok tt entered
unfolding begin_enter
enters = refl

working-Sound : Sound working
working-Sound = record { held = tt; once = tt }

settles : (b : Bool) (st : Status) → (e : Env) × (settled b st 0 entered.env ≡ some e)
settles true st = (record (entered.env) { settled = (0, Value.undefined) ∷ [] }, refl)
settles false st = (record (entered.env) { settled = (0, Value.text (b'e' ∷ [])) ∷ [] }, refl)

Reaches-finish_example :
    (w : Worker) × (e : Env) × (some accepts.promise ≡ some accepts.promise)
    × (entered.cells 9 ≡ some (worker_cell w))
    × (settled w.success w.status 0 entered.env ≡ some e)
    × (finish 9 entered ≡ ok tt (record entered { env = e }))
Reaches-finish_example =
    Reaches-finish working write_call accepts refl (omega arith) refl (omega arith) refl
      (omega arith) working-Sound call_returns
      (Reaches.further Reaches.reached (Step.worker_enters 9 enters)) (tt, tt) settles
