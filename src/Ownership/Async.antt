-- ===== src/Ownership/Async.antt =====
-- The asynchronous write, on the side of the main thread, and the logger.
use rocksdb_ts.Prelude.{
  ◌≡◌, refl, ap, sym, ◌∙◌, arith, Bool, true, false, Option, none, some, [], ◌∷◌,
}
use rocksdb_ts.Host.{Host, Address, Bytes, Finalizer}
use rocksdb_ts.Machine.{Worker, Cell, worker_cell, State, ok, M, ◌>>=◌, ◌>>◌, pure}
use rocksdb_ts.Async.{
  blank, set_worker, defined, construct_promise, new_batch_write_promise, start, get_promise,
  add_finalizer, rocksdb_batch_write_async,
}
use rocksdb_ts.Logger.{configure_loggers, logger_config, logger_start, logger_stop}
use rocksdb_ts.Ownership.{
  handles, shape_of, worker_sort, Steady, Tame, Made, After, IsSteady, IsTame,
}
use rocksdb_ts.Ownership.Steps.{
  Steady-refl, Steady-trans, Steady-Tame, After-map, IsSteady-bind, IsSteady-then, IsSteady-call,
  IsSteady-pure,
}
use rocksdb_ts.Ownership.Parts.{
  Steady-outside, tell-IsSteady, napi_call_throws-IsSteady, napi_argv-IsSteady,
}
use rocksdb_ts.Ownership.Heap.{Steady-put, load_worker-IsSteady}
use rocksdb_ts.Ownership.Making.{Makes}
use rocksdb_ts.Ownership.Fresh.{
  Except, IsExcept, IsExcept-of, IsExcept-bind, IsExcept-then, IsExcept-call, GivesBack-then,
  GivesBack-pure, Makes-own,
}
use rocksdb_ts.Ownership.Finishing.{Finishes, IsTame-Makes, Finishes-bind}
use rocksdb_ts.Ownership.Registers.{with_external, Tame-external, Made-one}
use rocksdb_ts.Ownership.Rules.{steady_rules, tame_rules}

module _ ⦃h : Host⦄ where
  After-set_worker :
      (s : State) (p : Address) (change : Worker → Worker) (c : Option Cell)
      → s.cells p ≡ c
      → ((w : Worker) → handles (change w) ≡ handles w)
      → After (Steady s) (set_worker p change s)
  unfolding set_worker
  After-set_worker s p change (some (worker_cell w)) e f =
      rw (e, After)
        (Steady-put s p (some (worker_cell (change w)))
          (ap (λ x. some (worker_sort, some x)) (f w) ∙ sym (ap shape_of e)))
  After-set_worker s p change (some _) e f = rw (e, After) tt
  After-set_worker s p change none e f = rw (e, After) tt

  -- A change of a worker that keeps its handles.
  pub set_worker-IsSteady :
      (p : Address) (change : Worker → Worker)
      → ((w : Worker) → handles (change w) ≡ handles w)
      → IsSteady (set_worker p change)
  set_worker-IsSteady p change f = record {
    steady = λ s. After-set_worker s p change (s.cells p) refl f;
  }

  own_set :
      (s : State) (p : Address) (change : Worker → Worker) (c : Option Cell)
      → s.cells p ≡ c
      → After (Except p s) (set_worker p change s)
  unfolding set_worker
  own_set s p change (some (worker_cell w)) e =
      rw (e, After)
        (record {
          grows = omega arith;
          lives = λ q k n l f. ground arith;
          own = λ k l f. ground arith;
          room = λ m q l. ground (arith, m q);
          refs = λ v x. x;
          same = refl;
        })
  own_set s p change (some _) e = rw (e, After) tt
  own_set s p change none e = rw (e, After) tt

  set_worker-IsExcept : (p : Address) (change : Worker → Worker) → IsExcept p (set_worker p change)
  set_worker-IsExcept p change = record { except = λ s. own_set s p change (s.cells p) refl }

  pub defined-IsSteady : {A : Type 0} (r : Option A) → IsSteady (defined r)
  defined-IsSteady none = record { steady = λ s. tt }
  defined-IsSteady (some a) = record { steady = Steady-refl }

  construct_promise-IsExcept : (p : Address) → IsExcept p (construct_promise p)
  unfolding construct_promise
  construct_promise-IsExcept p =
      search
        (
          IsExcept-call, IsExcept-bind, IsExcept-then, set_worker-IsExcept, IsExcept-of,
          napi_call_throws-IsSteady,
        )
        depth 14

  get_promise-IsSteady : (p : Address) → IsSteady (get_promise p)
  unfolding get_promise
  get_promise-IsSteady p = IsSteady-bind (load_worker-IsSteady p) λ w. defined-IsSteady w.promise

  pub start-IsSteady : (p : Address) → IsSteady (start p)
  unfolding start
  start-IsSteady p = IsSteady-call (
      IsSteady-bind (load_worker-IsSteady p) λ w.
        IsSteady-bind (defined-IsSteady w.async_work) λ work.
          IsSteady-then (tell-IsSteady (h.napi.queue_async_work work))
            (record { steady = λ s. Steady-outside }))

  new_batch_write_promise-Makes :
      (db batch options : Address)
      → Makes (λ p. (p, worker_sort) ∷ []) (new_batch_write_promise db batch options)
  unfolding new_batch_write_promise
  new_batch_write_promise-Makes db batch options =
      Makes-own (worker_cell blank) worker_sort refl λ p.
        GivesBack-then (construct_promise-IsExcept p) (
          GivesBack-then
            (set_worker-IsExcept p (λ w. record w { db = db; batch = batch; options = options }))
            (GivesBack-pure p))

  finalizer_added :
      {A : Type 0} {s t : State} (v : h.napi.Value) (p : Address) (n : M A) (r : Option h.napi.Env)
      → h.napi.add_finalizer v p Finalizer.rocksdb_batch_write_async_finalize t.env ≡ r
      → IsSteady n
      → Steady s t
      → Made s t ((p, worker_sort) ∷ [])
      → After (Tame s) ((add_finalizer v p >> n) t)
  unfolding add_finalizer
  finalizer_added {t} v p n none e f x m =
      rw (e, After) (After-map (n t) (λ u y. Steady-Tame (Steady-trans x y)) (f.steady t))
  finalizer_added {t} v p n (some env) e f x m =
      let fin = Finalizer.rocksdb_batch_write_async_finalize in
      let u = with_external t v env p fin 0 in
      rw (e, After)
        (After-map (n u)
          (λ w y. Tame-external {w = w} v env p fin 0 x (Made-one p worker_sort m) y (λ r k. tt))
          (f.steady u))

  Finishes-add_finalizer :
      {A : Type 0} {s : State} (v : h.napi.Value) (p : Address) {n : M A}
      → IsSteady n
      → Finishes s ((p, worker_sort) ∷ []) (add_finalizer v p >> n)
  Finishes-add_finalizer v p {n} f = record {
    finishes = λ t x m.
        finalizer_added v p n
          (h.napi.add_finalizer v p Finalizer.rocksdb_batch_write_async_finalize t.env) refl f x m;
  }

  started : (p : Address) → IsSteady (start p >> (get_promise p >>= λ v. pure (some v)))
  started p =
      IsSteady-then (start-IsSteady p)
        (IsSteady-bind (get_promise-IsSteady p) λ v. IsSteady-pure (some v))

  async-IsTame :
      (db batch options : Address)
      → IsTame (
          new_batch_write_promise db batch options >>= λ p. get_promise p >>= λ promise.
          add_finalizer promise p >> (start p >> (get_promise p >>= λ result. pure (some result))))
  async-IsTame db batch options =
      IsTame-Makes (new_batch_write_promise-Makes db batch options)
        λ s p. Finishes-bind (get_promise-IsSteady p) λ v. Finishes-add_finalizer v p (started p)

  pub rocksdb_batch_write_async-IsTame :
      (info : h.napi.Info) → IsTame (rocksdb_batch_write_async info)
  unfolding rocksdb_batch_write_async
  rocksdb_batch_write_async-IsTame info = search (tame_rules, async-IsTame) depth 14

  configure_loggers-IsSteady : (path : Bytes) → IsSteady (configure_loggers path)
  unfolding configure_loggers
  configure_loggers-IsSteady path = record { steady = λ s. Steady-outside }

  pub logger_config-IsSteady : (info : h.napi.Info) → IsSteady (logger_config info)
  unfolding logger_config
  logger_config-IsSteady info = search (steady_rules, configure_loggers-IsSteady) depth 14

  switched : (b : Bool) → IsSteady {A = Unit {0}} (λ s. ok tt (record s { logging_enabled = b }))
  switched b = record { steady = λ s. Steady-outside }

  pub logger_start-IsSteady : (info : h.napi.Info) → IsSteady (logger_start info)
  unfolding logger_start
  logger_start-IsSteady info =
      IsSteady-then (napi_argv-IsSteady 0 info) (IsSteady-then (switched true) (IsSteady-pure none))

  pub logger_stop-IsSteady : (info : h.napi.Info) → IsSteady (logger_stop info)
  unfolding logger_stop
  logger_stop-IsSteady info =
      IsSteady-then (napi_argv-IsSteady 0 info)
        (IsSteady-then (switched false) (IsSteady-pure none))
