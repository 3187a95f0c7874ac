-- ===== src/Experiments/PromiseWorker/Settles.antt =====
-- How a `PromiseWorker` settles its promise.
use rocksdb_ts.Prelude.{◌≡◌, ◌≢◌, refl, Bool, true, false, Option, none, some, [], ◌∙◌}
use rocksdb_ts.Host.{Bytes}
use rocksdb_ts.Experiments.PromiseWorker.{
  Addon, Ending, returns, throws, throws_other, Resolver, PromiseWorker, on_ok, on_error, run,
}

module _ ⦃a : Addon⦄ where
  -- What node-addon-api and N-API document of deferred promises and of `AsyncWorker`. `settled` is
  -- how a promise was settled: whether it was resolved, and the value.
  pub record IsAddon : Type 1 where
    pub settled : a.Deferred → a.Env → Option (Bool × a.Value)
    pub undefined_keeps : (d : a.Deferred) (e : a.Env) → settled d (a.undefined e).1 ≡ settled d e
    pub error_value_keeps :
        (d : a.Deferred) (what : Bytes) (e : a.Env)
        → settled d (a.error_value what e).1 ≡ settled d e
    pub resolve_settles :
        (d : a.Deferred) (v : a.Value) (e : a.Env)
        → settled d e ≡ none
        → settled d (a.resolve d v e) ≡ some (true, v)
    pub reject_settles :
        (d : a.Deferred) (v : a.Value) (e : a.Env)
        → settled d e ≡ none
        → settled d (a.reject d v e) ≡ some (false, v)
    pub calls_on_ok : {A : Type 0} (x : A) (f : Bytes → A) → a.on_work_complete none x f ≡ x
    pub calls_on_error :
        {A : Type 0} (what : Bytes) (x : A) (f : Bytes → A)
        → what ≢ []
        → a.on_work_complete (some what) x f ≡ f what

  -- The promise is settled so, or still open after the exception.
  abbrev pub EndsSettled : IsAddon → a.Deferred → Ending a.Env → Bool × a.Value → Type 0
  EndsSettled i d r outcome = (e : a.Env) × (r ≡ returns e) × (i.settled d e ≡ some outcome)

  -- What a resolver asks for.
  abbrev pub AfterResolver : IsAddon → a.Deferred → Ending a.Env → Ending (a.Value × a.Env) → Type 0
  AfterResolver i d r (returns (v, e)) = EndsSettled i d r (true, v)
  AfterResolver i d r (throws what) = r ≡ throws what
  AfterResolver i d r throws_other = r ≡ throws_other

  -- What the end of the task asks for.
  abbrev pub Expected :
      IsAddon → a.Deferred → Option Resolver → a.Env → Ending (Unit {0}) → Ending a.Env → Type 0
  Expected i d none e (returns x) r = EndsSettled i d r (true, (a.undefined e).0)
  Expected i d (some resolver) e (returns x) r = AfterResolver i d r (resolver e)
  Expected i d resolver e (throws what) r = EndsSettled i d r (false, (a.error_value what e).0)
  Expected i d resolver e throws_other r = r ≡ throws_other

  resolver_ends :
      {W : Type 0} (i : IsAddon) (p : PromiseWorker W) (e : a.Env) (resolver : Resolver)
      (r : Ending (a.Value × a.Env))
      → p.resolver ≡ some resolver
      → resolver e ≡ r
      → ((v : a.Value) (e1 : a.Env) → r ≡ returns (v, e1) → i.settled p.deferred e1 ≡ none)
      → AfterResolver i p.deferred (on_ok p e) r
  unfolding on_ok
  resolver_ends i p e resolver (returns (v, e1)) q x pending =
      rw (q, x)
        (a.resolve p.deferred v e1, refl, i.resolve_settles p.deferred v e1 (pending v e1 refl))
  resolver_ends i p e resolver (throws what) q x pending = rw (q, x) refl
  resolver_ends i p e resolver throws_other q x pending = rw (q, x) refl

  task_ends :
      {W : Type 0} (i : IsAddon) (p : PromiseWorker W) (w : W) (e : a.Env) (x : Ending (Unit {0}))
      (r : Option Resolver)
      → (p.task w).0 ≡ x
      → p.resolver ≡ r
      → i.settled p.deferred e ≡ none
      → ((what : Bytes) → x ≡ throws what → what ≢ [])
      → ((resolver : Resolver) (v : a.Value) (e1 : a.Env)
          → r ≡ some resolver
          → resolver e ≡ returns (v, e1)
          → i.settled p.deferred e1 ≡ none)
      → Expected i p.deferred r e x (run p w e)
  unfolding run on_error on_ok
  task_ends i p w e (returns x) none q k pending texts keeps =
      rw (q, k, i.calls_on_ok)
        (
          a.resolve p.deferred (a.undefined e).0 (a.undefined e).1,
          refl,
          i.resolve_settles p.deferred _ _ (i.undefined_keeps p.deferred e ∙ pending),
        )
  task_ends i p w e (returns x) (some resolver) q k pending texts keeps =
      rw (q, i.calls_on_ok)
        (resolver_ends i p e resolver (resolver e) k refl (λ v e1. keeps resolver v e1 refl))
  task_ends i p w e (throws what) r q k pending texts keeps =
      rw (q, i.calls_on_error what _ _ (texts what refl))
        (
          a.reject p.deferred (a.error_value what e).0 (a.error_value what e).1,
          refl,
          i.reject_settles p.deferred _ _ (i.error_value_keeps p.deferred what e ∙ pending),
        )
  task_ends i p w e throws_other r q k pending texts keeps = rw q refl

  -- A run of a worker whose promise is open, whose resolver does not settle the promise itself, and
  -- whose task throws no std::exception with an empty text. A task that returns resolves the
  -- promise, with the value of the resolver, or with `undefined` where there is none. A task that
  -- throws a std::exception rejects it with the error of that text. An exception of a resolver
  -- leaves the run, and so does any other exception of a task.
  pub run-Expected :
      {W : Type 0} (i : IsAddon) (p : PromiseWorker W) (w : W) (e : a.Env)
      → i.settled p.deferred e ≡ none
      → ((what : Bytes) → (p.task w).0 ≡ throws what → what ≢ [])
      → ((resolver : Resolver) (v : a.Value) (e1 : a.Env)
          → p.resolver ≡ some resolver
          → resolver e ≡ returns (v, e1)
          → i.settled p.deferred e1 ≡ none)
      → Expected i p.deferred p.resolver e (p.task w).0 (run p w e)
  run-Expected i p w e = task_ends i p w e (p.task w).0 p.resolver refl refl
