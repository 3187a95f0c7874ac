-- ===== src/Experiments/PromiseWorker.antt =====
-- The class `PromiseWorker` of binding-using-embind/promise-worker.hpp: a task for a worker thread,
-- whose end settles a promise.
pub mod Settles
use rocksdb_ts.Prelude.{Option, none, some}
use rocksdb_ts.Host.{Bytes}

-- node-addon-api (napi.h), as the class uses it.
pub record Addon : Type 1 where
  pub Env : Type 0
  pub Value : Type 0
  pub Deferred : Type 0
  pub deferred_new : Env → Deferred × Env
  pub undefined : Env → Value × Env
  pub error_value : Bytes → Env → Value × Env
  pub resolve : Deferred → Value → Env → Env
  pub reject : Deferred → Value → Env → Env
  -- What `AsyncWorker` does on the main thread when the work is done, given the argument of
  -- `SetError`, if it was called: it calls `OnOK` or `OnError`.
  pub on_work_complete : {A : Type 0} → Option Bytes → A → (Bytes → A) → A

-- How a function of C++ ends: it returns, throws a std::exception with its `what()`, or throws
-- something else.
pub data Ending (A : Type 0) : Type 0 where
  returns : A → Ending A
  throws : Bytes → Ending A
  throws_other : Ending A

module _ ⦃a : Addon⦄ where
  -- A resolver makes a value, or throws.
  abbrev pub Resolver : Type 0
  Resolver = a.Env → Ending (a.Value × a.Env)

  -- `W` is what the task works on, which it may change before it throws.
  pub record PromiseWorker (W : Type 0) : Type 0 where
    pub deferred : a.Deferred
    pub task : W → Ending (Unit {0}) × W
    pub resolver : Option Resolver

  -- The constructor.
  unfoldable pub new_promise_worker :
      {W : Type 0} → (W → Ending (Unit {0}) × W) → Option Resolver → a.Env → PromiseWorker W × a.Env
  new_promise_worker task resolver e =
      let (d, e1) = a.deferred_new e in
      (record { deferred = d; task = task; resolver = resolver }, e1)

  abbrev caught : Ending (Unit {0}) → Ending (Option Bytes)
  caught (returns v) = returns none
  caught (throws what) = returns (some what)
  caught throws_other = throws_other

  -- `Execute`, with the argument of `SetError`. An exception of another class leaves the function.
  unfoldable pub execute : {W : Type 0} → PromiseWorker W → W → Ending (Option Bytes) × W
  execute p w = let (r, w1) = p.task w in (caught r, w1)

  abbrev resolved : a.Deferred → Ending (a.Value × a.Env) → Ending a.Env
  resolved d (returns (v, e)) = returns (a.resolve d v e)
  resolved d (throws what) = throws what
  resolved d throws_other = throws_other

  -- `OnOK`
  unfoldable pub on_ok : {W : Type 0} → PromiseWorker W → a.Env → Ending a.Env
  on_ok p e = elim p.resolver [
    | some resolver ↦ resolved p.deferred (resolver e)
    | none ↦ resolved p.deferred (returns (a.undefined e))
  ]

  -- `OnError`, with the error that `AsyncWorker` makes of the message.
  unfoldable pub on_error : {W : Type 0} → PromiseWorker W → Bytes → a.Env → Ending a.Env
  on_error p what e = let (v, e1) = a.error_value what e in returns (a.reject p.deferred v e1)

  abbrev completed : {W : Type 0} → PromiseWorker W → a.Env → Ending (Option Bytes) → Ending a.Env
  unfolding on_ok on_error
  completed p e (returns error) = a.on_work_complete error (on_ok p e) (λ what. on_error p what e)
  completed p e (throws what) = throws what
  completed p e throws_other = throws_other

  -- A whole run: `Execute` on the worker thread, then the completion on the main thread.
  unfoldable pub run : {W : Type 0} → PromiseWorker W → W → a.Env → Ending a.Env
  unfolding execute completed
  run p w e = completed p e (execute p w).0
