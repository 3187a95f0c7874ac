-- ===== src/Interface/Guards.antt =====
-- What the parts of rocksdb_batch_write_async leave in the worker: the promise of the engine.
use rocksdb_ts.Prelude.{◌≡◌, refl, Option, none, some, ◌∷◌, update, subst, sym, arith}
use rocksdb_ts.Host.{Host, Address, Finalizer, utf8, return_null, proceed, Control}
use rocksdb_ts.Machine.{
  Cell, Worker, worker_cell, State, Outcome, ok, returned, fault, M, ◌>>=◌, ◌>>◌, and_then,
  end_call, call,
}
use rocksdb_ts.Machine.Effects.{load_worker, found, as_worker}
use rocksdb_ts.Machine.Macros.{napi_status_throws, napi_call_throws, make_value, tell}
use rocksdb_ts.Async.{
  set_worker, construct_promise, promise_id, start, get_promise, add_finalizer, defined, flat,
}
use rocksdb_ts.Ownership.{After}
use rocksdb_ts.Ownership.Steps.{After-and_then}
use rocksdb_ts.Interface.{promise}
use rocksdb_ts.Interface.Values.{HasType}

module _ ⦃h : Host⦄ where
  abbrev pub PromiseOf : Option h.napi.Value → Type 0
  PromiseOf none = Unit
  PromiseOf (some v) = HasType promise v

  -- A worker at the place holds a promise or none yet.
  abbrev pub Promised : Option Cell → Type 0
  Promised (some (worker_cell w)) = PromiseOf w.promise
  Promised _ = Unit

  -- The code keeps that of the worker at `q`.
  pub record Guards (q : Address) {A : Type 0} (m : M A) : Type 0 where
    pub guards : (s : State) → Promised (s.cells q) → After (λ t. Promised (t.cells q)) (m s)

  pub Guards-bind :
      (q : Address) {A B : Type 0} {m : M A} {n : A → M B}
      → Guards q m
      → ((a : A) → Guards q (n a))
      → Guards q (m >>= n)
  Guards-bind q {m} {n} f g = record {
    guards = λ s x. After-and_then (m s) n (f.guards s x) (λ a t. (g a).guards t);
  }

  pub Guards-then :
      (q : Address) {A B : Type 0} {m : M A} {n : M B} → Guards q m → Guards q n → Guards q (m >> n)
  Guards-then q f g = Guards-bind q f λ a. g

  After-end : (P : State → Type 0) (r : Outcome (Unit {0})) → After P r → After P (end_call r)
  After-end P (ok a t) x = x
  After-end P (returned t) x = x
  After-end P (fault e) x = x

  pub Guards-call : (q : Address) {m : M (Unit {0})} → Guards q m → Guards q (call m)
  Guards-call q {m} f = record { guards = λ s x. After-end _ (m s) (f.guards s x) }

  bad_status :
      {A : Type 0} (q : Address) (s : State) (old : Option A) (r : Control × h.napi.Env)
      → h.napi.on_bad_status s.env ≡ r
      → Promised (s.cells q)
      → After (λ t. Promised (t.cells q)) (napi_status_throws old none s)
  unfolding napi_status_throws
  bad_status q s old (return_null, e) p x = rw (p, After) x
  bad_status q s none (proceed, e) p x = rw (p, After) tt
  bad_status q s (some a) (proceed, e) p x = rw (p, After) x

  after_call :
      {A : Type 0} (q : Address) (s : State) (old : Option A)
      (f : h.napi.Env → Option (A × h.napi.Env)) (r : Option (A × h.napi.Env))
      → f s.env ≡ r
      → Promised (s.cells q)
      → After (λ t. Promised (t.cells q)) (napi_call_throws old f s)
  unfolding napi_call_throws
  after_call q s old f none p x =
      rw (p, After) (bad_status q s old (h.napi.on_bad_status s.env) refl x)
  after_call q s old f (some (a, e)) p x = rw (p, After) x

  pub Guards-napi_call_throws :
      {A : Type 0} (q : Address) (old : Option A) (f : h.napi.Env → Option (A × h.napi.Env))
      → Guards q (napi_call_throws old f)
  Guards-napi_call_throws q old f = record { guards = λ s. after_call q s old f (f s.env) refl }

  pub Guards-load_worker : (q p : Address) → Guards q (load_worker p)
  unfolding load_worker
  Guards-load_worker q p = record { guards = λ s x. lemma s (as_worker (s.cells p)) x }
    where
      lemma :
          (s : State) (r : Option Worker)
          → Promised (s.cells q)
          → After (λ t. Promised (t.cells q)) (found r s)
      lemma s none x = tt
      lemma s (some w) x = x

  pub Guards-defined : (q : Address) {A : Type 0} (r : Option A) → Guards q (defined r)
  Guards-defined q none = record { guards = λ s x. tt }
  Guards-defined q (some a) = record { guards = λ s x. x }

  pub updated : (f : Address → Option Cell) (q : Address) (c : Option Cell) → update f q c q ≡ c
  updated f q c = ground arith

  set_worker_after :
      (s : State) (q : Address) (change : Worker → Worker) (c : Option Cell)
      → s.cells q ≡ c
      → Promised c
      → ((w : Worker) → PromiseOf w.promise → PromiseOf (change w).promise)
      → After (λ t. Promised (t.cells q)) (set_worker q change s)
  unfolding set_worker load_worker
  set_worker_after s q change (some (worker_cell w)) e x f =
      rw (e, After)
        (subst Promised (sym (updated s.cells q (some (worker_cell (change w))))) (f w x))
  set_worker_after s q change (some _) e x f = rw (e, After) tt
  set_worker_after s q change none e x f = rw (e, After) tt

  pub Guards-set_worker :
      (q : Address) (change : Worker → Worker)
      → ((w : Worker) → PromiseOf w.promise → PromiseOf (change w).promise)
      → Guards q (set_worker q change)
  Guards-set_worker q change f = record {
    guards = λ s x. set_worker_after s q change (s.cells q) refl x f;
  }

  refused :
      {A B : Type 0} (q : Address) (s : State) (n : A → M B) (r : Control × h.napi.Env)
      → h.napi.on_bad_status s.env ≡ r
      → Promised (s.cells q)
      → After (λ t. Promised (t.cells q)) (and_then (napi_status_throws none none s) n)
  unfolding napi_status_throws
  refused q s n (return_null, e) p x = rw (p, After) x
  refused q s n (proceed, e) p x = rw (p, After) tt

  -- The first statement of the constructor, with the promise that the engine gives.
  new_promise :
      (q : Address) (s : State) (n : h.napi.Deferred × h.napi.Value → M (Unit {0}))
      (r : Option (h.napi.Deferred × h.napi.Value × h.napi.Env))
      → h.napi.create_promise s.env ≡ r
      → Promised (s.cells q)
      → ((a : h.napi.Deferred × h.napi.Value) → HasType promise a.1 → Guards q (n a))
      → After
          (λ t. Promised (t.cells q))
          (and_then (napi_call_throws none (λ e. flat (h.napi.create_promise e)) s) n)
  unfolding napi_call_throws
  new_promise q s n none e x f = rw (e, After) (refused q s n (h.napi.on_bad_status s.env) refl x)
  new_promise q s n (some (d, v, env)) e x f =
      rw (e, After) ((f (d, v) (d, s.env, env, e)).guards (record s { env = env }) x)

  pub Guards-promise :
      (q : Address) {n : h.napi.Deferred × h.napi.Value → M (Unit {0})}
      → ((a : h.napi.Deferred × h.napi.Value) → HasType promise a.1 → Guards q (n a))
      → Guards q (napi_call_throws none (λ e. flat (h.napi.create_promise e)) >>= n)
  Guards-promise q {n} f = record {
    guards = λ s x. new_promise q s n (h.napi.create_promise s.env) refl x f;
  }

  pub Guards-make_value :
      (q : Address) (f : h.napi.Env → Option (h.napi.Value × h.napi.Env)) → Guards q (make_value f)
  unfolding make_value
  Guards-make_value q f = Guards-napi_call_throws q none _

  pub Guards-tell : (q : Address) (f : h.napi.Env → Option h.napi.Env) → Guards q (tell f)
  unfolding tell
  Guards-tell q f = Guards-napi_call_throws q (some tt) _

  pub Guards-construct_promise : (q : Address) → Guards q (construct_promise q)
  unfolding construct_promise
  Guards-construct_promise q = Guards-call q (
      Guards-promise q λ r x. Guards-then q (Guards-set_worker q _ (λ w y. x)) (
        Guards-bind q (Guards-make_value q (h.napi.create_string utf8 promise_id)) λ id.
          Guards-bind q (Guards-napi_call_throws q none _)
            λ work. Guards-set_worker q (λ w. record w { async_work = some work }) (λ w y. y)))

  pub Guards-get_promise : (q : Address) → Guards q (get_promise q)
  unfolding get_promise
  Guards-get_promise q = Guards-bind q (Guards-load_worker q q) λ w. Guards-defined q w.promise

  pub Guards-queue :
      (q : Address) → Guards q {A = Unit {0}} (λ s. ok tt (record s { queued = q ∷ s.queued }))
  Guards-queue q = record { guards = λ s x. x }

  pub Guards-start : (q : Address) → Guards q (start q)
  unfolding start
  Guards-start q = Guards-call q (
      Guards-bind q (Guards-load_worker q q) λ w.
        Guards-bind q (Guards-defined q w.async_work)
          λ work. Guards-then q (Guards-tell q (h.napi.queue_async_work work)) (Guards-queue q))

  pub Guards-add_finalizer : (q : Address) (v : h.napi.Value) → Guards q (add_finalizer v q)
  unfolding add_finalizer
  Guards-add_finalizer q v = record {
    guards = λ s x.
        lemma s x (h.napi.add_finalizer v q Finalizer.rocksdb_batch_write_async_finalize s.env)
          refl;
  }
    where
      lemma :
          (s : State)
          → Promised (s.cells q)
          → (r : Option h.napi.Env)
          → h.napi.add_finalizer v q Finalizer.rocksdb_batch_write_async_finalize s.env ≡ r
          → After (λ t. Promised (t.cells q)) (add_finalizer v q s)
      lemma s x none e = rw (e, After) x
      lemma s x (some env) e = rw (e, After) x
