-- ===== src/Async/Promises.antt =====
-- The promise of an asynchronous write: what it settles to, and what happens to a worker whose
-- promise or whose batch dies too early.
use rocksdb_ts.Prelude.{◌≡◌, ◌≢◌, refl, Bool, true, false, Option, none, some, arith, update, ℕ}
use rocksdb_ts.Host.{Host, Address, utf8, WriteOptions}
use rocksdb_ts.Machine.{
  dangling, fatal_error, Worker, worker_cell, State, ok, fault, ◌>>◌, batch, database,
  write_options_cell,
}
use rocksdb_ts.Machine.Effects.{load_worker, memory, is_native}
use rocksdb_ts.Machine.Calls.{Args, Points}
use rocksdb_ts.Machine.Macros.{tell, napi_call_throws, napi_status_throws}
use rocksdb_ts.Database.Strings.{thrown, rocksdb_status_throws_lem}
use rocksdb_ts.Batches.{db_write, rocksdb_batch_write, rocksdb_batch_finalize, delete_batch}
use rocksdb_ts.Async.{
  begin, begin_enter, begin_execute, finish, settle, resolution, rejection, defined, execute,
  set_worker, rocksdb_batch_write_async_finalize, delete_batch_write_promise, destruct_promise,
}
use rocksdb_ts.Async.Settles.{Queued, begun, begin_lem, db_write_lem, load_worker_lem}

module _ ⦃h : Host⦄ where
  -- A call of rocksdb_batch_write.
  pub record WriteCall (info : h.napi.Info) (e : h.napi.Env) (db q p : Address) : Type 0 where
    pub argv : ℕ → h.napi.Value
    pub args : Args 3 info e argv
    pub target : Points (argv 0) e db
    pub batch : Points (argv 1) e q
    pub options : Points (argv 2) e p

  pub rocksdb_batch_write_lem :
      {info : h.napi.Info} (s : State) {db q p : Address} {o : WriteOptions}
      → is_native database (s.cells db) ≡ true
      → s.cells p ≡ some (write_options_cell o)
      → is_native batch (s.cells q) ≡ true
      → WriteCall info s.env db q p
      → rocksdb_batch_write info s ≡ (
          let r = h.rocks.write (memory s) db o q s.lib in
          ok none (record s { env = thrown r.0 s.env; lib = r.1 }))
  unfolding rocksdb_batch_write
  rocksdb_batch_write_lem s db_live live batch_live c =
      rw (c.args, c.target, c.batch, c.options, db_write_lem s db_live live batch_live)
        (rw rocksdb_status_throws_lem)

  -- `Begin` of a worker over live objects writes what a call of rocksdb_batch_write with the same
  -- database, batch and options would write in the same state: both leave the library in the same
  -- state. The worker leaves the engine alone, the call raises a status that is not OK.
  pub begin-rocksdb_batch_write :
      {info : h.napi.Info} (s : State) (p : Address) (w : Worker) (o : WriteOptions)
      → Queued s p w o
      → WriteCall info s.env w.db w.batch w.options
      → (t : State) × (u : State) × (begin p s ≡ ok tt t)
        × (rocksdb_batch_write info s ≡ ok none u)
        × (t.lib ≡ u.lib)
        × (t.env ≡ s.env)
        × (u.env ≡ thrown (h.rocks.write (memory s) w.db o w.batch s.lib).0 s.env)
  begin-rocksdb_batch_write s p w o x c =
      let r = h.rocks.write (memory s) w.db o w.batch s.lib in
      (
        _,
        record s { env = thrown r.0 s.env; lib = r.1 },
        begin_lem s p w o x,
        rocksdb_batch_write_lem s x.db_live x.options_live x.batch_live c,
        refl,
        refl,
        refl,
      )

  abbrev resolved : h.napi.Deferred → Option (h.napi.Value × h.napi.Env) → Option h.napi.Env
  resolved d none = none
  resolved d (some (v, e)) = h.napi.resolve_deferred d v e

  abbrev rejected : h.napi.Deferred → Option (h.napi.Value × h.napi.Env) → Option h.napi.Env
  rejected d none = none
  rejected d (some (v, e)) = h.napi.reject_deferred d v e

  -- The engine after a promise is settled by a status: with `undefined`, or with its text.
  abbrev pub settled : Bool → h.rocks.Status → h.napi.Deferred → h.napi.Env → Option h.napi.Env
  settled true st d e = resolved d (h.napi.get_undefined e)
  settled false st d e = rejected d (h.napi.create_string utf8 (h.rocks.to_string st) e)

  settle_lem :
      (s : State) (p : Address) (w : Worker) (b : Bool) (d : h.napi.Deferred) {e : h.napi.Env}
      → s.cells p ≡ some (worker_cell w)
      → settled b w.status d s.env ≡ some e
      → settle b d p s ≡ ok tt (record s { env = e })
  unfolding settle resolution rejection tell napi_call_throws napi_status_throws load_worker
  settle_lem s p w true d live q = ground arith
  settle_lem s p w false d live q = ground arith

  pub finish_lem :
      (s : State) (p : Address) (w : Worker) (d : h.napi.Deferred) {e : h.napi.Env}
      → s.cells p ≡ some (worker_cell w)
      → w.deferred ≡ some d
      → settled w.success w.status d s.env ≡ some e
      → finish p s ≡ ok tt (record s { env = e })
  unfolding finish
  finish_lem s p w d live has q =
      rw (load_worker_lem s p w live, has, defined, settle_lem s p w w.success d live q) refl

  -- A worker over live objects, from the start of `Begin` to the end of `Finish`, writes the batch
  -- and settles its own promise: it resolves the promise with `undefined` if the status is OK, and
  -- otherwise rejects it with the text of the status. Nothing else of the process changes but the
  -- library and the worker itself.
  pub finish-begin :
      (s : State) (p : Address) (w : Worker) (o : WriteOptions) (d : h.napi.Deferred)
      {e : h.napi.Env}
      → Queued s p w o
      → w.deferred ≡ some d
      → (let st = (h.rocks.write (memory s) w.db o w.batch s.lib).0 in
          settled (h.rocks.ok? st) st d s.env ≡ some e)
      → (begin p >> finish p) s ≡ (
          let r = h.rocks.write (memory s) w.db o w.batch s.lib in
          ok tt (record s {
            env = e;
            lib = r.1;
            cells = update s.cells p (some (worker_cell (begun w r.0)));
          }))
  finish-begin s p w o d x has q =
      let r = h.rocks.write (memory s) w.db o w.batch s.lib in
      let t : State = record s {
        lib = r.1;
        cells = update s.cells p (some (worker_cell (begun w r.0)));
      } in
      rw (begin_lem s p w o x) (finish_lem t p (begun w r.0) d (ground arith) has q)

  -- Where the finalizer of a worker runs right after the first statement of `Begin`, the
  -- destructor ends the process with a fatal error.
  pub finalize-executing :
      (s : State) (p : Address) (w : Worker) (work : h.napi.Work) {e : h.napi.Env}
      → p ≢ 0
      → s.cells p ≡ some (worker_cell w)
      → w.async_work ≡ some work
      → h.napi.delete_async_work work s.env ≡ some e
      → (begin_enter p >> rocksdb_batch_write_async_finalize p) s ≡ fault fatal_error
  unfolding begin_enter rocksdb_batch_write_async_finalize delete_batch_write_promise
      destruct_promise tell napi_call_throws set_worker
  finalize-executing s p w work ne live has q = ground arith

  -- A worker does not keep its batch alive: where the finalizer of the batch runs before `Begin`,
  -- `Begin` writes a batch that is gone.
  pub begin-freed_batch :
      (s : State) (p : Address) (w : Worker) (o : WriteOptions)
      → Queued s p w o
      → w.batch ≢ 0
      → (rocksdb_batch_finalize w.batch >> begin p) s ≡ fault dangling
  unfolding rocksdb_batch_finalize delete_batch begin begin_enter begin_execute execute set_worker
      db_write
  begin-freed_batch s p w o x ne =
      let a = x.live in
      let b = x.db_live in let c = x.batch_live in let d = x.options_live in ground arith
