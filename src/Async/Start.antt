-- ===== src/Async/Start.antt =====
-- The call of rocksdb_batch_write_async: what it leaves for the thread pool.
use rocksdb_ts.Prelude.{suc, ◌<◌, ◌≡◌, refl, true, false, Option, none, some, ◌∷◌, arith, update}
use rocksdb_ts.Host.{return_null, Host, Address, Finalizer, utf8, WriteOptions}
use rocksdb_ts.Machine.{
  fault, indeterminate, Cell, Worker, worker_cell, State, ok, database, batch, write_options_cell,
}
use rocksdb_ts.Machine.Effects.{is_native, load_worker}
use rocksdb_ts.Machine.Macros.{napi_status_throws, napi_call_throws, make_value, tell}
use rocksdb_ts.Async.{
  promise_id, rocksdb_batch_write_async, new_batch_write_promise, construct_promise, set_worker,
  get_promise, add_finalizer, start,
}
use rocksdb_ts.Async.Settles.{Queued}
use rocksdb_ts.Async.Promises.{WriteCall}

module _ ⦃h : Host⦄ where
  -- The engine makes a promise and its work, registers the finalizer and queues the work.
  pub record Accepts (e : h.napi.Env) (p : Address) : Type 0 where
    pub deferred : h.napi.Deferred
    pub promise : h.napi.Value
    pub id : h.napi.Value
    pub work : h.napi.Work
    pub env1 : h.napi.Env
    pub env2 : h.napi.Env
    pub env3 : h.napi.Env
    pub env4 : h.napi.Env
    pub env5 : h.napi.Env
    pub promised : h.napi.create_promise e ≡ some (deferred, promise, env1)
    pub named : h.napi.create_string utf8 promise_id env1 ≡ some (id, env2)
    pub worked : h.napi.create_async_work id p env2 ≡ some (work, env3)
    pub added :
        h.napi.add_finalizer promise p Finalizer.rocksdb_batch_write_async_finalize env3 ≡ some env4
    pub queued : h.napi.queue_async_work work env4 ≡ some env5

  -- The worker that is queued.
  abbrev pub fresh :
      {e : h.napi.Env} {p : Address} → Accepts e p → Address → Address → Address → Worker
  fresh a db q options = record {
    success = false;
    executing = false;
    promise = some a.promise;
    deferred = some a.deferred;
    async_work = some a.work;
    status = h.rocks.status_ok;
    db = db;
    batch = q;
    options = options;
  }

  -- A call of rocksdb_batch_write_async over live objects, where the engine refuses nothing, returns
  -- the promise and writes nothing yet: the library is as it was. The new worker is queued, holds
  -- the promise's handles, and is over the same live objects; the engine has its finalizer.
  pub start_success :
      {info : h.napi.Info} {db q options : Address} {o : WriteOptions} (s : State)
      → WriteCall info s.env db q options
      → (a : Accepts s.env s.next) → is_native database (s.cells db) ≡ true
      → db < s.next
      → is_native batch (s.cells q) ≡ true
      → q < s.next
      → s.cells options ≡ some (write_options_cell o)
      → options < s.next
      → (t : State) × (rocksdb_batch_write_async info s ≡ ok (some a.promise) t)
        × Queued t s.next (fresh a db q options) o
        × (t.lib ≡ s.lib)
        × (t.queued ≡ s.next ∷ s.queued)
        × (t.externals
            ≡ record {
              value = a.promise;
              payload = s.next;
              finalizer = Finalizer.rocksdb_batch_write_async_finalize;
              hint = 0;
            }
              ∷ s.externals)
  unfolding rocksdb_batch_write_async new_batch_write_promise construct_promise set_worker
      get_promise add_finalizer start load_worker napi_call_throws make_value tell
  start_success {db} {q} {options} {o} s c a db_live db_old q_live q_old live old =
      let n = s.next in
      let w = fresh a db q options in
      let at : (Address → Option Cell) → Worker → Address → Option Cell =
        λ f v. update f n (some (worker_cell v)) in
      let w2 = fresh a 0 0 0 in
      let w1 = record w2 { async_work = none } in
      let w0 = record w1 { promise = none; deferred = none } in
      let t : State = record s {
        env = a.env5;
        cells = at (at (at (at s.cells w0) w1) w2) w;
        next = suc n;
        externals =
            record {
              value = a.promise;
              payload = n;
              finalizer = Finalizer.rocksdb_batch_write_async_finalize;
              hint = 0;
            }
            ∷ s.externals;
        queued = n ∷ s.queued;
      } in
      (
        t,
        ground arith,
        record {
          live = ground arith;
          db_live = ground arith;
          batch_live = ground arith;
          options_live = ground arith;
        },
        refl,
        refl,
        refl,
      )

  -- Where the engine refuses to make the promise, and the macro returns after the bad status, the
  -- return ends the constructor alone: the call goes on and reads the promise, which was never set.
  -- The call has no defined behaviour.
  pub start_refused :
      {info : h.napi.Info} {db q options : Address} {e : h.napi.Env} (s : State)
      → WriteCall info s.env db q options
      → h.napi.create_promise s.env ≡ none
      → h.napi.on_bad_status s.env ≡ (return_null, e)
      → rocksdb_batch_write_async info s ≡ fault indeterminate
  unfolding rocksdb_batch_write_async new_batch_write_promise construct_promise set_worker
      get_promise load_worker napi_call_throws napi_status_throws
  start_refused {db} {q} {options} s c refused returns = ground (arith, refused, returns)
