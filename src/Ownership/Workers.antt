-- ===== src/Ownership/Workers.antt =====
-- The finalizers of snapshots and of asynchronous writes, and what they free.
use rocksdb_ts.Prelude.{
  ◌≡◌, ◌≢◌, refl, Bool, true, false, Option, none, some, [], ◌∷◌, ◌==◌, if◌then◌else◌, All, arith,
  update,
}
use rocksdb_ts.Host.{Host, Address, Control, return_null, proceed}
use rocksdb_ts.Machine.{Kind, Worker, worker_cell, State}
use rocksdb_ts.Machine.Effects.{is_native}
use rocksdb_ts.Machine.Macros.{tell, napi_call_throws, napi_status_throws}
use rocksdb_ts.Database.Snapshots.{release_snapshot, rocksdb_snapshot_finalize}
use rocksdb_ts.Async.{
  destruct_promise, delete_batch_write_promise, rocksdb_batch_write_async_finalize,
}
use rocksdb_ts.Ownership.{worker_sort, native_sort, unless_null, Holds}
use rocksdb_ts.Ownership.Finalizers.{Frees-none, Frees-one, Ends, Ends-unless_null, is_native_of}

module _ ⦃h : Host⦄ where
  snapshot_cases :
      (s : State) (p db : Address) (a b : Bool)
      → (p == 0) ≡ a
      → (db == 0) ≡ b
      → (db ≢ 0 → is_native Kind.database (s.cells db) ≡ true)
      → All (Holds s) (if a then [] else (p, native_sort Kind.snapshot) ∷ [])
      → Ends
          (rocksdb_snapshot_finalize p db)
          s
          (if a then [] else (p, native_sort Kind.snapshot) ∷ [])
  unfolding rocksdb_snapshot_finalize release_snapshot
  snapshot_cases s p db true b ep ed live x = (s, rw ep refl, Frees-none s)
  snapshot_cases s p db false true ep ed live x = (
    s,
    rw (ep, ed) refl,
    record {
      kept = omega arith;
      lives = λ q k y z. z;
      room = λ m. m;
      refs = λ n. refl;
      same = refl;
    },
  )
  snapshot_cases s p db false false ep ed live (x, y) = (
    record s { lib = h.rocks.release_snapshot db p s.lib; cells = update s.cells p none },
    rw (ep, ed, live (λ e. ground arith), is_native_of Kind.snapshot (s.cells p) x.0) refl,
    Frees-one s p (native_sort Kind.snapshot),
  )

  pub snapshot-Ends :
      (s : State) (p db : Address)
      → (db ≢ 0 → is_native Kind.database (s.cells db) ≡ true)
      → All (Holds s) (unless_null p (native_sort Kind.snapshot))
      → Ends (rocksdb_snapshot_finalize p db) s (unless_null p (native_sort Kind.snapshot))
  snapshot-Ends s p db = snapshot_cases s p db (p == 0) (db == 0) refl refl

  -- A worker that is not between the start and the end of `Begin`, and whose construction went well.
  pub record Idle (s : State) (p : Address) : Type 0 where
    pub worker : Worker
    pub work : h.napi.Work
    pub live : s.cells p ≡ some (worker_cell worker)
    pub created : worker.async_work ≡ some work
    pub idle : worker.executing ≡ false

  deleted_badly :
      (s : State) (p : Address) (i : Idle s p) (r : Control × h.napi.Env)
      → h.napi.delete_async_work i.work s.env ≡ none
      → h.napi.on_bad_status s.env ≡ r
      → Ends (delete_batch_write_promise p) s ((p, worker_sort) ∷ [])
  unfolding delete_batch_write_promise destruct_promise tell napi_call_throws napi_status_throws
  deleted_badly s p i (return_null, e) q macro = (
    record s { env = e; cells = update s.cells p none },
    ground (arith, i.live, i.created, q, macro),
    Frees-one s p worker_sort,
  )
  deleted_badly s p i (proceed, e) q macro = (
    record s { env = e; cells = update s.cells p none },
    ground (arith, i.live, i.created, q, macro, i.idle),
    Frees-one s p worker_sort,
  )

  deleted :
      (s : State) (p : Address) (i : Idle s p) (r : Option h.napi.Env)
      → h.napi.delete_async_work i.work s.env ≡ r
      → Ends (delete_batch_write_promise p) s ((p, worker_sort) ∷ [])
  unfolding delete_batch_write_promise destruct_promise tell napi_call_throws napi_status_throws
  deleted s p i none q = deleted_badly s p i (h.napi.on_bad_status s.env) q refl
  deleted s p i (some e) q = (
    record s { env = e; cells = update s.cells p none },
    ground (arith, i.live, i.created, q, i.idle),
    Frees-one s p worker_sort,
  )

  pub worker-Ends :
      (s : State) (p : Address)
      → Idle s p
      → All (Holds s) (unless_null p worker_sort)
      → Ends (rocksdb_batch_write_async_finalize p) s (unless_null p worker_sort)
  unfolding rocksdb_batch_write_async_finalize
  worker-Ends s p i =
      Ends-unless_null p worker_sort (delete_batch_write_promise p) (p == 0)
        λ x. deleted s p i (h.napi.delete_async_work i.work s.env) refl
