-- ===== src/Ownership/Reaches.antt =====
-- The process as steps: calls of exported methods, runs of finalizers, and the worker threads.
use Prim.Native.String.{String}
use mathlib.Core.List.{Memᴰ}
use rocksdb_ts.Prelude.{
  ◌≡◌, refl, Option, none, some, List, ◌∷◌, ◌++◌, All, subst, sym, Bool, true, false, ◌∙◌,
}
use rocksdb_ts.Host.{Host, Address, utf8}
use rocksdb_ts.Machine.{External, State, ok, returned, M, Method}
use rocksdb_ts.Async.{
  begin_enter, begin_execute, begin_leave, execute, unchecked, finish, settle, rejection,
  resolution,
}
use rocksdb_ts.Exports.{exports}
use rocksdb_ts.Ownership.{Sound, Steady, After, IsSteady}
use rocksdb_ts.Ownership.Steps.{Steady-Tame, IsSteady-bind, IsSteady-call}
use rocksdb_ts.Ownership.Keeps.{Sound-Tame, exports-Sound}
use rocksdb_ts.Ownership.Heap.{load_worker-IsSteady}
use rocksdb_ts.Ownership.Parts.{Steady-outside}
use rocksdb_ts.Ownership.Async.{set_worker-IsSteady, defined-IsSteady}
use rocksdb_ts.Ownership.Batches.{db_write-IsSteady}
use rocksdb_ts.Ownership.Process.{Ready, run, without, finalizer-Sound}
use rocksdb_ts.Ownership.Rules.{steady_rules}

module _ ⦃h : Host⦄ where
  -- One step of the process. A method returns a value or NULL; the engine may do anything to its own
  -- state; the finalizer of a dead external runs when it is ready; the thread pool runs the three
  -- parts of `Begin`, and the main thread runs `Finish`, of any worker at any time.
  pub data Step : State → State → Type 0 where
    method_returns :
        {s t : State} {m : String × Method} {v : Option h.napi.Value} (info : h.napi.Info)
        → Memᴰ m exports
        → m.1 info s ≡ ok v t
        → Step s t
    method_returns_null :
        {s t : State} {m : String × Method} (info : h.napi.Info)
        → Memᴰ m exports
        → m.1 info s ≡ returned t
        → Step s t
    engine_acts : {s : State} (e : h.napi.Env) → Step s (record s { env = e })
    external_dies :
        {s t : State} (xs ys : List External) (x : External)
        → s.externals ≡ xs ++ (x ∷ ys)
        → Ready (without s (xs ++ ys)) x.finalizer x.payload x.hint
        → run x.finalizer x.payload x.hint (without s (xs ++ ys)) ≡ ok tt t
        → Step s t
    worker_enters : {s t : State} (p : Address) → begin_enter p s ≡ ok tt t → Step s t
    worker_executes : {s t : State} (p : Address) → begin_execute p s ≡ ok tt t → Step s t
    worker_leaves : {s t : State} (p : Address) → begin_leave p s ≡ ok tt t → Step s t
    worker_finishes : {s t : State} (p : Address) → finish p s ≡ ok tt t → Step s t

  pub data Reaches (s : State) : State → Type 0 where
    reached : Reaches s s
    further : {t u : State} → Reaches s t → Step t u → Reaches s u

  pub begin_enter-IsSteady : (p : Address) → IsSteady (begin_enter p)
  unfolding begin_enter
  begin_enter-IsSteady p = set_worker-IsSteady p (λ w. record w { executing = true }) (λ w. refl)

  pub begin_leave-IsSteady : (p : Address) → IsSteady (begin_leave p)
  unfolding begin_leave
  begin_leave-IsSteady p = set_worker-IsSteady p (λ w. record w { executing = false }) (λ w. refl)

  execute-IsSteady : (p : Address) → IsSteady (execute p)
  unfolding execute
  execute-IsSteady p = search (steady_rules, db_write-IsSteady, set_worker-IsSteady) depth 12

  pub begin_execute-IsSteady : (p : Address) → IsSteady (begin_execute p)
  unfolding begin_execute
  begin_execute-IsSteady p = search (steady_rules, execute-IsSteady, set_worker-IsSteady) depth 12

  After-unchecked :
      (s : State) (r : Option (h.napi.Value × h.napi.Env)) → After (Steady s) (unchecked r s)
  After-unchecked s none = tt
  After-unchecked s (some (v, e)) = Steady-outside

  resolution-IsSteady : (p : Address) → IsSteady (resolution p)
  unfolding resolution
  resolution-IsSteady p = record { steady = λ s. After-unchecked s (h.napi.get_undefined s.env) }

  rejection-IsSteady : (p : Address) → IsSteady (rejection p)
  unfolding rejection
  rejection-IsSteady p = IsSteady-bind (load_worker-IsSteady p) λ w. record {
    steady = λ s. After-unchecked s (h.napi.create_string utf8 (h.rocks.to_string w.status) s.env);
  }

  settle-IsSteady : (b : Bool) (d : h.napi.Deferred) (p : Address) → IsSteady (settle b d p)
  unfolding settle
  settle-IsSteady true d p = search (steady_rules, resolution-IsSteady) depth 12
  settle-IsSteady false d p = search (steady_rules, rejection-IsSteady) depth 12

  pub finish-IsSteady : (p : Address) → IsSteady (finish p)
  unfolding finish
  finish-IsSteady p = IsSteady-call (
      IsSteady-bind (load_worker-IsSteady p)
        λ w. IsSteady-bind (defined-IsSteady w.deferred) λ d. settle-IsSteady w.success d p)

  Sound-Steady : {s t : State} {m : M (Unit {0})} → IsSteady m → Sound s → m s ≡ ok tt t → Sound t
  Sound-Steady {s} f a e =
      Sound-Tame (Steady-Tame (subst (λ r. After (Steady s) r) e (f.steady s))) a

  pub All-Mem : {A : Type 0} (P : A → Type 0) {x : A} {xs : List A} → Memᴰ x xs → All P xs → P x
  All-Mem P (Memᴰ.head e) (p, a) = subst P (sym e) p
  All-Mem P (Memᴰ.tail m) (p, a) = All-Mem P m a

  pub Step-Sound : {s t : State} → Step s t → Sound s → Sound t
  Step-Sound {s} {t} (method_returns {m} info x e) a =
      subst (λ r. After Sound r) e
        (All-Mem (λ m. After Sound (m.1 info s)) x (exports-Sound s info a))
  Step-Sound {s} {t} (method_returns_null {m} info x e) a =
      subst (λ r. After Sound r) e
        (All-Mem (λ m. After Sound (m.1 info s)) x (exports-Sound s info a))
  Step-Sound (engine_acts e) a = record { held = a.held; once = a.once }
  Step-Sound {s} {t} (external_dies xs ys x e r q) a =
      let (u, ends, sound, rest) = finalizer-Sound s xs ys x e a r in
      subst (λ o. After Sound o) (sym ends ∙ q) sound
  Step-Sound (worker_enters p e) a = Sound-Steady (begin_enter-IsSteady p) a e
  Step-Sound (worker_executes p e) a = Sound-Steady (begin_execute-IsSteady p) a e
  Step-Sound (worker_leaves p e) a = Sound-Steady (begin_leave-IsSteady p) a e
  Step-Sound (worker_finishes p e) a = Sound-Steady (finish-IsSteady p) a e

  pub Reaches-Sound : {s t : State} → Reaches s t → Sound s → Sound t
  Reaches-Sound reached a = a
  Reaches-Sound (further x y) a = Step-Sound y (Reaches-Sound x a)
