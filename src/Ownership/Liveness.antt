-- ===== src/Ownership/Liveness.antt =====
-- The promise of rocksdb_batch_write_async, from the call to `Finish`, with anything in between.
use rocksdb_ts.Prelude.{
  ◌<◌, ◌≡◌, ◌≢◌, refl, Bool, true, false, Option, some, List, [], ◌∷◌, ◌++◌, ◌==◌, if◌then◌else◌,
  All, arith, ap, sym, subst, ◌∙◌,
}
use rocksdb_ts.Host.{Host, Address, WriteOptions}
use rocksdb_ts.Machine.{
  Worker, worker_cell, State, Outcome, ok, database, batch, write_options_cell,
}
use rocksdb_ts.Machine.Effects.{is_native}
use rocksdb_ts.Async.{rocksdb_batch_write_async, finish}
use rocksdb_ts.Async.Promises.{WriteCall, settled, finish_lem}
use rocksdb_ts.Async.Start.{Accepts, fresh, start_success}
use rocksdb_ts.Ownership.{
  Sort, worker_sort, Handles, handles, shape_of, Claim, claims, Holds, Sound, Tame, After,
}
use rocksdb_ts.Ownership.Keeps.{Sound-Tame}
use rocksdb_ts.Ownership.Async.{rocksdb_batch_write_async-IsTame}
use rocksdb_ts.Ownership.Reaches.{Reaches}
use rocksdb_ts.Ownership.Lasts.{worker_of, Spares, Lasting, Reaches-Lasting}

module _ ⦃h : Host⦄ where
  first_Holds :
      (t : State) (p : Address) (k : Sort) (cs : List Claim) (b : Bool)
      → (p == 0) ≡ b
      → p ≢ 0
      → All (Holds t) ((if b then [] else (p, k) ∷ []) ++ cs)
      → Holds t (p, k)
  first_Holds t p k cs true e n x = absurd (ground arith)
  first_Holds t p k cs false e n (x, y) = x

  -- What holds after the call.
  abbrev Started : h.napi.Value → Address → Handles → Outcome (Option h.napi.Value) → Type 0
  Started v p k (ok r t) = (r ≡ some v) × Sound t × Lasting p (worker_sort, some k) t
  Started v p k _ = ⊥

  -- Where rocksdb_batch_write_async is called as `start_success` asks, in a state where every object
  -- that the registered finalizers free is live and freed by no other, it returns the promise that
  -- the engine made. Whatever the process does then, calls of methods, finalizers of other objects
  -- and steps of any workers, in any order: as long as no finalizer frees the worker, `Finish` of
  -- that worker ends normally and settles that promise, by the success and the status that the
  -- worker then has, provided that the engine does not refuse to settle it.
  pub Reaches-finish :
      {info : h.napi.Info} {db q options : Address} {o : WriteOptions} {v : Option h.napi.Value}
      {t u : State} (s : State)
      → WriteCall info s.env db q options
      → (a : Accepts s.env s.next) → is_native database (s.cells db) ≡ true
      → db < s.next
      → is_native batch (s.cells q) ≡ true
      → q < s.next
      → s.cells options ≡ some (write_options_cell o)
      → options < s.next
      → Sound s
      → rocksdb_batch_write_async info s ≡ ok v t
      → (r : Reaches t u) → Spares s.next r
      → ((b : Bool) (st : h.rocks.Status)
          → (e : h.napi.Env) × (settled b st a.deferred u.env ≡ some e))
      → (w : Worker) × (e : h.napi.Env) × (v ≡ some a.promise)
        × (u.cells s.next ≡ some (worker_cell w))
        × (settled w.success w.status a.deferred u.env ≡ some e)
        × (finish s.next u ≡ ok tt (record u { env = e }))
  Reaches-finish {info} {db} {q} {options} {o} {v} {t} {u} s c a db_live db_old q_live q_old live
        old sound call r spares settles =
      let p = s.next in
      let k = handles (fresh a db q options) in
      let (t1, ends, queued, lib, queue, registered) =
        start_success s c a db_live db_old q_live q_old live old in
      let tame : Tame s t1 =
        subst (After (Tame s)) ends ((rocksdb_batch_write_async-IsTame info).tame s) in
      let after = Sound-Tame tame sound in
      let (live1, old1) =
        first_Holds t1 p worker_sort (claims s.externals) (p == 0) refl (λ e. omega arith)
          (subst (λ xs. All (Holds t1) (claims xs)) registered after.held) in
      let (e1, sound1, lasting) : Started a.promise p k (ok v t) =
        subst (Started a.promise p k) (sym ends ∙ call)
          (refl, after, (ap shape_of queued.live, old1)) in
      let (kept, young) = Reaches-Lasting p (worker_sort, some k) r spares sound1 lasting in
      let (w, is, same) = worker_of (u.cells p) k kept in
      let (e, z) = settles w.success w.status in
      (w, e, e1, is, z, finish_lem u p w a.deferred is (ap (λ x. x.deferred) same) z)
