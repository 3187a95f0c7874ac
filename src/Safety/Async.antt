-- ===== src/Safety/Async.antt =====
-- The asynchronous write, where the engine supplies the promise and the work.
use rocksdb_ts.Prelude.{◌≡◌, refl, subst, suc, update, ap, ◌∙◌, Option, none, some, arith}
use rocksdb_ts.Host.{Host, Address, Finalizer}
use rocksdb_ts.Machine.{
  Cell, M, and_then, pure, State, Worker, worker_cell, Outcome, ok, returned, fault, end_call,
  ◌>>=◌, ◌>>◌,
}
use rocksdb_ts.Machine.Effects.{new, load_worker}
use rocksdb_ts.Machine.Macros.{
  napi_status_throws, napi_argv, from_external_argument, napi_call_throws, make_value, tell,
}
use rocksdb_ts.Async.{
  construct_promise, new_batch_write_promise, set_worker, get_promise, add_finalizer, start, blank,
  rocksdb_batch_write_async,
}
use rocksdb_ts.Ownership.{Handles, handles, After, worker_sort, shape_of}
use rocksdb_ts.Ownership.Steps.{After-map}
use rocksdb_ts.Ownership.Async.{start-IsSteady}
use rocksdb_ts.Ownership.Lasts.{Lasting, worker_of}
use rocksdb_ts.Safety.{Ends, Leads, Documented, Supplies, EndsIn}
use rocksdb_ts.Safety.Steps.{Ends-and_then, Calm-refl}
use rocksdb_ts.Safety.Parts.{napi_status_throws-Leads, tell-Reads}

module _ ⦃h : Host⦄ where
  -- A worker whose promise and work are made.
  record Started (p : Address) (t : State) : Type 0 where
    kept : Handles
    promise : h.napi.Value
    work : h.napi.Work
    lasting : Lasting p (worker_sort, some kept) t
    promised : kept.promise ≡ some promise
    worked : kept.async_work ≡ some work

  made :
      (db batch options : Address) (s : State)
      → Supplies s
      → (t : State) × (new_batch_write_promise db batch options s ≡ ok s.next t) × Started s.next t
  unfolding new_batch_write_promise construct_promise set_worker load_worker napi_call_throws
      make_value new
  made db batch options s y =
      let at : (Address → Option Cell) → Worker → Address → Option Cell =
        λ f w. update f s.next (some (worker_cell w)) in
      let w1 = record (blank) { deferred = some y.deferred; promise = some y.promise } in
      let w2 = record w1 { async_work = some y.work } in
      let w3 = record w2 { db = db; batch = batch; options = options } in
      let t : State = record s {
        env = y.env3;
        cells = at (at (at (at s.cells blank) w1) w2) w3;
        next = suc s.next;
      } in
      let live : t.cells s.next ≡ some (worker_cell w3) = ground arith in
      (
        t,
        ground (arith, y.promised, y.named, y.worked),
        record {
          kept = handles w3;
          promise = y.promise;
          work = y.work;
          lasting = (ap shape_of live, omega arith);
          promised = refl;
          worked = refl;
        },
      )

  get_promise_lem : (p : Address) (t : State) (a : Started p t) → get_promise p t ≡ ok a.promise t
  unfolding get_promise load_worker
  get_promise_lem p t a =
      let (w, live, same) = worker_of (t.cells p) a.kept a.lasting.0 in
      let is : w.promise ≡ some a.promise = ap (λ k. k.promise) same ∙ a.promised in
      rw (live, is) refl

  Started-Lasting :
      {p : Address} {s t : State} (a : Started p s)
      → Lasting p (worker_sort, some a.kept) t
      → Started p t
  Started-Lasting a l = record {
    kept = a.kept;
    promise = a.promise;
    work = a.work;
    lasting = l;
    promised = a.promised;
    worked = a.worked;
  }

  Leads-add_finalizer :
      (p : Address) (v : h.napi.Value) (t : State) (r : Option h.napi.Env)
      → Started p t
      → h.napi.add_finalizer v p Finalizer.rocksdb_batch_write_async_finalize t.env ≡ r
      → Leads (λ a. Started p) (add_finalizer v p t)
  unfolding add_finalizer
  Leads-add_finalizer p v t none a e = rw (e, Leads) (Started-Lasting a a.lasting)
  Leads-add_finalizer p v t (some f) a e = rw (e, Leads) (Started-Lasting a a.lasting)

  Ends-end_call : (r : Outcome (Unit {0})) → Ends r → Ends (end_call r)
  Ends-end_call (ok a t) x = tt
  Ends-end_call (returned t) x = tt
  Ends-end_call (fault e) x = x

  both : {A : Type 0} (P : State → Type 0) (r : Outcome A) → Ends r → After P r → Leads (λ a. P) r
  both P (ok a t) x y = y
  both P (returned t) x y = tt
  both P (fault e) x y = x

  Ends-start : (d : Documented) (p : Address) (t : State) → Started p t → Ends (start p t)
  unfolding start load_worker
  Ends-start d p t a =
      let (w, live, same) = worker_of (t.cells p) a.kept a.lasting.0 in
      let is : w.async_work ≡ some a.work = ap (λ k. k.async_work) same ∙ a.worked in
      rw (live, is, Ends)
        (Ends-end_call _ (
          Ends-and_then _ (tell (h.napi.queue_async_work a.work) t) _
            ((tell-Reads d (h.napi.queue_async_work a.work)).reads t (Calm-refl t)) (λ b u x. tt)))

  Leads-start :
      (d : Documented) (p : Address) (t : State) → Started p t → Leads (λ a. Started p) (start p t)
  Leads-start d p t a = both (Started p) (start p t) (Ends-start d p t a) (
      After-map (start p t)
        (λ u x.
          let g = x.grows in Started-Lasting a (x.lives p _ a.lasting.1 a.lasting.0, omega arith))
        ((start-IsSteady p).steady t))

  -- What follows the reading of the arguments.
  Ends-starts :
      (d : Documented) (db batch options : Address) (s : State)
      → Supplies s
      → Ends (
          (do
            p ← new_batch_write_promise db batch options
            promise ← get_promise p
            add_finalizer promise p
            start p
            result ← get_promise p
            pure (some result))
            s)
  Ends-starts d db batch options s y =
      let (t, ends, a) = made db batch options s y in
      let p = s.next in
      rw (ends, Ends)
        (rw (get_promise_lem p t a, Ends)
          (Ends-and_then (λ b. Started p) (add_finalizer a.promise p t) _
            (Leads-add_finalizer p a.promise t _ a refl)
            (λ b u x.
              Ends-and_then (λ b. Started p) (start p u) _ (Leads-start d p u x)
                (λ b w z. rw (get_promise_lem p w z, Ends) tt))))

  -- A part that reads an argument ends the method, or goes on in the same state.
  asked :
      {A B : Type 0} (d : Documented) (s : State) (old r : Option A) (n : A → M B)
      → ((a : A) → Ends (n a s))
      → Ends (and_then (napi_status_throws old r s) n)
  asked d s old r n f =
      Ends-and_then (λ a t. s ≡ t) (napi_status_throws old r s) n
        (napi_status_throws-Leads d s _ old r (λ a e. refl))
        (λ a t e. subst (λ u. Ends (n a u)) e (f a))

  pub rocksdb_batch_write_async-EndsIn :
      {s : State} (info : h.napi.Info)
      → Documented
      → Supplies s
      → EndsIn s (rocksdb_batch_write_async info)
  unfolding rocksdb_batch_write_async napi_argv from_external_argument
  rocksdb_batch_write_async-EndsIn {s} info d y = record {
    ends = asked d s none (h.napi.get_cb_info 3 info s.env) _ λ argv.
        asked d s (some 0) (h.napi.get_value_external (argv 0) s.env) _ λ db.
          asked d s (some 0) (h.napi.get_value_external (argv 1) s.env) _ λ batch.
            asked d s (some 0) (h.napi.get_value_external (argv 2) s.env) _
              λ options. Ends-starts d db batch options s y;
  }
