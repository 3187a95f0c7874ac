-- ===== src/Async.antt =====
-- The asynchronous write: the classes `Promise` and `BatchWritePromise` of binding.cc, and
-- rocksdb_batch_write_async. A worker thread runs `begin`; the main thread runs all else.
pub mod Promises
pub mod Settles
pub mod Start
use rocksdb_ts.Prelude.{Bool, true, false, Option, none, some, [], ◌∷◌, ◌==◌, if◌then◌else◌}
use rocksdb_ts.Host.{Host, Address, Bytes, utf8, Finalizer}
use rocksdb_ts.Machine.{
  indeterminate, fatal_error, Worker, worker_cell, ok, fault, M, pure, ◌>>=◌, ◌>>◌, call, Method,
}
use rocksdb_ts.Machine.Effects.{new, put_cell, load_worker}
use rocksdb_ts.Machine.Macros.{
  napi_argv, from_external_argument, napi_call_throws, make_value, tell,
}
use rocksdb_ts.Batches.{db_write}

-- The texts "BatchWritePromise" of the constructor.
abbrev pub promise_id : Bytes
promise_id =
    b'B' ∷ b'a' ∷ b't' ∷ b'c' ∷ b'h' ∷ b'W' ∷ b'r' ∷ b'i' ∷ b't' ∷ b'e' ∷ b'P' ∷ b'r' ∷ b'o' ∷ b'm'
    ∷ b'i' ∷ b's' ∷ b'e' ∷ []

module _ ⦃h : Host⦄ where
  -- An assignment to fields of a worker.
  unfoldable pub set_worker : Address → (Worker → Worker) → M (Unit {0})
  unfolding load_worker
  set_worker p change = do w ← load_worker p; put_cell p (some (worker_cell (change w)))

  -- A handle that its variable may not hold yet.
  abbrev pub defined : {A : Type 0} → Option A → M A
  defined (some a) s = ok a s
  defined none s = fault indeterminate

  abbrev pub flat :
      Option (h.napi.Deferred × h.napi.Value × h.napi.Env)
      → Option ((h.napi.Deferred × h.napi.Value) × h.napi.Env)
  flat none = none
  flat (some (d, v, e)) = some ((d, v), e)

  -- The constructor of `Promise`, whose early returns end the constructor alone.
  unfoldable pub construct_promise : Address → M (Unit {0})
  unfolding napi_call_throws make_value set_worker
  construct_promise p = call (do
    r ← napi_call_throws none (λ e. flat (h.napi.create_promise e))
    set_worker p (λ w. record w { deferred = some r.0; promise = some r.1 })
    id ← make_value (h.napi.create_string utf8 promise_id)
    work ← napi_call_throws none (h.napi.create_async_work id p)
    set_worker p (λ w. record w { async_work = some work }))

  abbrev pub blank : Worker
  blank = record {
    success = false;
    executing = false;
    promise = none;
    deferred = none;
    async_work = none;
    status = h.rocks.status_ok;
    db = 0;
    batch = 0;
    options = 0;
  }

  -- `new BatchWritePromise(env, db, batch, options)`
  unfoldable pub new_batch_write_promise : Address → Address → Address → M Address
  unfolding new construct_promise set_worker
  new_batch_write_promise db batch options = do
    p ← new (worker_cell blank)
    construct_promise p
    set_worker p (λ w. record w { db = db; batch = batch; options = options })
    pure p

  -- `Promise::start`: the work is queued for the thread pool.
  unfoldable pub start : Address → M (Unit {0})
  unfolding load_worker tell
  start p = call (do
    w ← load_worker p
    work ← defined w.async_work
    tell (h.napi.queue_async_work work)
    λ s. ok tt (record s { queued = p ∷ s.queued }))

  -- `Promise::get`
  unfoldable pub get_promise : Address → M h.napi.Value
  unfolding load_worker
  get_promise p = do w ← load_worker p; defined w.promise

  abbrev told : h.napi.Value → Address → Option h.napi.Env → M (Unit {0})
  told v p none s = ok tt s
  told v p (some e) s = ok tt (record s {
    env = e;
    externals =
        record {
          value = v;
          payload = p;
          finalizer = Finalizer.rocksdb_batch_write_async_finalize;
          hint = 0;
        }
        ∷ s.externals;
  })

  -- `napi_add_finalizer`, whose status is ignored. The engine keeps the registration.
  unfoldable pub add_finalizer : h.napi.Value → Address → M (Unit {0})
  add_finalizer v p s =
      told v p (h.napi.add_finalizer v p Finalizer.rocksdb_batch_write_async_finalize s.env) s

  unfoldable pub rocksdb_batch_write_async : Method
  unfolding napi_argv from_external_argument new_batch_write_promise get_promise add_finalizer start
  rocksdb_batch_write_async info = do
    argv ← napi_argv 3 info
    db ← from_external_argument (argv 0)
    batch ← from_external_argument (argv 1)
    options ← from_external_argument (argv 2)
    p ← new_batch_write_promise db batch options
    promise ← get_promise p
    add_finalizer promise p
    start p
    result ← get_promise p
    pure (some result)

  -- `BatchWritePromise::execute`
  unfoldable pub execute : Address → M Bool
  unfolding load_worker db_write set_worker
  execute p = do
    w ← load_worker p
    status ← db_write w.db w.options w.batch
    set_worker p (λ w. record w { status = status })
    pure (h.rocks.ok? status)

  -- The three statements of `Promise::Begin`, which the main thread may come between.
  unfoldable pub begin_enter : Address → M (Unit {0})
  unfolding set_worker
  begin_enter p = set_worker p (λ w. record w { executing = true })

  unfoldable pub begin_execute : Address → M (Unit {0})
  unfolding execute set_worker
  begin_execute p = do success ← execute p; set_worker p (λ w. record w { success = success })

  unfoldable pub begin_leave : Address → M (Unit {0})
  unfolding set_worker
  begin_leave p = set_worker p (λ w. record w { executing = false })

  -- `Promise::Begin`
  unfoldable pub begin : Address → M (Unit {0})
  unfolding begin_enter begin_execute begin_leave
  begin p = do begin_enter p; begin_execute p; begin_leave p

  -- The calls of `rejection` and `resolution`, whose statuses are ignored.
  abbrev pub unchecked : Option (h.napi.Value × h.napi.Env) → M h.napi.Value
  unchecked none s = fault indeterminate
  unchecked (some (v, e)) s = ok v (record s { env = e })

  -- `BatchWritePromise::rejection`
  unfoldable pub rejection : Address → M h.napi.Value
  unfolding load_worker
  rejection p = do
    w ← load_worker p
    λ s. unchecked (h.napi.create_string utf8 (h.rocks.to_string w.status) s.env) s

  -- `BatchWritePromise::resolution`
  unfoldable pub resolution : Address → M h.napi.Value
  resolution p s = unchecked (h.napi.get_undefined s.env) s

  -- The two branches of `Promise::Finish`.
  unfoldable pub settle : Bool → h.napi.Deferred → Address → M (Unit {0})
  unfolding resolution rejection tell
  settle true deferred p = do v ← resolution p; tell (h.napi.resolve_deferred deferred v)
  settle false deferred p = do v ← rejection p; tell (h.napi.reject_deferred deferred v)

  -- `Promise::Finish`. The status that the engine passes is not read.
  unfoldable pub finish : Address → M (Unit {0})
  unfolding load_worker settle
  finish p = call (do w ← load_worker p; deferred ← defined w.deferred; settle w.success deferred p)

  -- The destructor of `Promise`. A failed `napi_delete_async_work` ends it early.
  unfoldable pub destruct_promise : Address → M (Unit {0})
  unfolding load_worker tell
  destruct_promise p = call (do
    w ← load_worker p
    work ← defined w.async_work
    tell (h.napi.delete_async_work work)
    λ s. if w.executing then fault fatal_error else ok tt s)

  unfoldable pub delete_batch_write_promise : Address → M (Unit {0})
  unfolding destruct_promise
  delete_batch_write_promise p = destruct_promise p >> put_cell p none

  unfoldable pub rocksdb_batch_write_async_finalize : Address → M (Unit {0})
  unfolding delete_batch_write_promise
  rocksdb_batch_write_async_finalize p = if p == 0 then pure tt else delete_batch_write_promise p
