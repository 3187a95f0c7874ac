-- ===== src/Async/Settles.antt =====
-- A worker from the start of `Begin` to the end of `Finish`, and what it does without owning its
-- database, its batch and its options.
use rocksdb_ts.Prelude.{◌≡◌, refl, true, false, Option, none, some, arith, update, fun_ext, ap}
use rocksdb_ts.Host.{Host, Address, WriteOptions}
use rocksdb_ts.Machine.{
  database, batch, Cell, Worker, Slice, Start, worker_cell, slice_cell, write_options_cell, State,
  ok,
}
use rocksdb_ts.Machine.Effects.{load_worker, is_native, memory, slice_bytes}
use rocksdb_ts.Batches.{db_write}
use rocksdb_ts.Async.{begin, begin_enter, begin_execute, begin_leave, execute, set_worker}

module _ ⦃h : Host⦄ where
  -- The change of a worker is not seen by the library.
  slice_of_worker :
      (s : State) (p : Address) (v w : Worker) (x : Slice) (start : Start)
      → x.start ≡ start
      → s.cells p ≡ some (worker_cell v)
      → slice_bytes (record s { cells = update s.cells p (some (worker_cell w)) }) x
        ≡ slice_bytes s x
  unfolding slice_bytes
  slice_of_worker s p v w x Start.nowhere e live = rw e refl
  slice_of_worker s p v w x (Start.region r) e live = rw e refl
  slice_of_worker s p v w x (Start.array q) e live = rw e (ground arith)

  abbrev with_worker : State → Address → Worker → State
  with_worker s p w = record s { cells = update s.cells p (some (worker_cell w)) }

  memory_at_worker :
      (s : State) (p : Address) (v w : Worker) (q : Address) (c : Option Cell)
      → s.cells q ≡ c
      → s.cells p ≡ some (worker_cell v)
      → memory (with_worker s p w) q ≡ memory s q
  unfolding memory
  memory_at_worker s p v w q (some (slice_cell x)) e live =
      ground (arith, slice_of_worker s p v w x x.start refl live)
  memory_at_worker s p v w q (some _) e live = ground arith
  memory_at_worker s p v w q none e live = ground arith

  memory_of_worker :
      (s : State) (p : Address) (v w : Worker)
      → s.cells p ≡ some (worker_cell v)
      → memory (with_worker s p w) ≡ memory s
  memory_of_worker s p v w live = fun_ext λ q. memory_at_worker s p v w q (s.cells q) refl live

  pub db_write_lem :
      (s : State) {db options q : Address} {o : WriteOptions}
      → is_native database (s.cells db) ≡ true
      → s.cells options ≡ some (write_options_cell o)
      → is_native batch (s.cells q) ≡ true
      → db_write db options q s
        ≡ (let r = h.rocks.write (memory s) db o q s.lib in ok r.0 (record s { lib = r.1 }))
  unfolding db_write
  db_write_lem s a b c = rw (a, b, c)

  -- A worker that is queued, over live objects.
  pub record Queued (s : State) (p : Address) (w : Worker) (o : WriteOptions) : Type 0 where
    pub live : s.cells p ≡ some (worker_cell w)
    pub db_live : is_native database (s.cells w.db) ≡ true
    pub batch_live : is_native batch (s.cells w.batch) ≡ true
    pub options_live : s.cells w.options ≡ some (write_options_cell o)

  -- The worker after `Begin`.
  abbrev pub begun : Worker → h.rocks.Status → Worker
  begun w st = record w { status = st; success = h.rocks.ok? st; executing = false }

  pub load_worker_lem :
      (s : State) (p : Address) (w : Worker)
      → s.cells p ≡ some (worker_cell w)
      → load_worker p s ≡ ok w s
  unfolding load_worker
  load_worker_lem s p w live = rw live refl

  set_worker_lem :
      (s : State) (p : Address) (w : Worker) (change : Worker → Worker)
      → s.cells p ≡ some (worker_cell w)
      → set_worker p change s ≡ ok tt (with_worker s p (change w))
  unfolding set_worker
  set_worker_lem s p w change live = rw live refl

  execute_lem :
      (s : State) (p : Address) (w : Worker) (o : WriteOptions)
      → Queued s p w o
      → execute p s ≡ (
          let r = h.rocks.write (memory s) w.db o w.batch s.lib in
          ok (h.rocks.ok? r.0) (with_worker (record s { lib = r.1 }) p (record w { status = r.0 })))
  unfolding execute
  execute_lem s p w o x =
      let r = h.rocks.write (memory s) w.db o w.batch s.lib in
      rw
        (
          load_worker_lem s p w x.live,
          db_write_lem s x.db_live x.options_live x.batch_live,
          set_worker_lem (record s { lib = r.1 }) p w (λ v. record v { status = r.0 }) x.live,
        )
        refl

  -- The worker while `execute` runs.
  abbrev running : Worker → Worker
  running w = record w { executing = true }

  Queued-running :
      (s : State) (p : Address) (w : Worker) (o : WriteOptions)
      → Queued s p w o
      → Queued (with_worker s p (running w)) p (running w) o
  Queued-running s p w o x =
      let a = x.live in
      let b = x.db_live in
      let c = x.batch_live in
      let d = x.options_live in
      record {
        live = ground arith;
        db_live = ground arith;
        batch_live = ground arith;
        options_live = ground arith;
      }

  -- `Begin` writes the batch as rocksdb_batch_write does, and keeps the status.
  pub begin_lem :
      (s : State) (p : Address) (w : Worker) (o : WriteOptions)
      → Queued s p w o
      → begin p s ≡ (
          let r = h.rocks.write (memory s) w.db o w.batch s.lib in
          ok tt (with_worker (record s { lib = r.1 }) p (begun w r.0)))
  unfolding begin begin_enter begin_execute begin_leave
  begin_lem s p w o x =
      let r = h.rocks.write (memory s) w.db o w.batch s.lib in
      let t = with_worker s p (running w) in
      let u = with_worker (record t { lib = r.1 }) p (record (running w) { status = r.0 }) in
      let v = with_worker u p (record (running w) { status = r.0; success = h.rocks.ok? r.0 }) in
      rw
        (
          set_worker_lem s p w running x.live,
          execute_lem t p (running w) o (Queued-running s p w o x),
          memory_of_worker s p w (running w) x.live,
          set_worker_lem u p (record (running w) { status = r.0 })
              (λ w. record w { success = h.rocks.ok? r.0 }) (ground arith),
          set_worker_lem v p (record (running w) { status = r.0; success = h.rocks.ok? r.0 })
              (λ w. record w { executing = false }) (ground arith),
        )
        (ap (λ c. ok tt (record s { lib = r.1; cells = c })) (fun_ext λ q. ground arith))
