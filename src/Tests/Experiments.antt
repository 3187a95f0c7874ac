-- ===== src/Tests/Experiments.antt =====
-- The theorems on the experiments, at a small promise library and at the small process of `Tests`.
use rocksdb_ts.Prelude.{ℕ, suc, ◌≡◌, refl, Bool, true, false, Option, none, some, [], ◌∷◌, arith}
use rocksdb_ts.Host.{Bytes}
use rocksdb_ts.Experiments.PromiseWorker.{Addon, returns, throws, PromiseWorker, run}
use rocksdb_ts.Experiments.PromiseWorker.Settles.{IsAddon, run-Expected}
use rocksdb_ts.Demo.{demo}

-- One promise, which keeps the first value that settles it. A value is a text.
abbrev settle_once : Bool → Bytes → Option (Bool × Bytes) → Option (Bool × Bytes)
settle_once b v none = some (b, v)
settle_once b v (some r) = some r

abbrev complete {ℓ} : {A : Type ℓ} → Option Bytes → A → (Bytes → A) → A
complete none x f = x
complete (some []) x f = x
complete (some (c ∷ what)) x f = f (c ∷ what)

instance abbrev one_promise : Addon
one_promise = record {
  Env = Option (Bool × Bytes);
  Value = Bytes;
  Deferred = Unit;
  deferred_new = λ e. (tt, none);
  undefined = λ e. ([], e);
  error_value = λ what e. (what, e);
  resolve = λ d v e. settle_once true v e;
  reject = λ d v e. settle_once false v e;
  on_work_complete = λ error x f. complete error x f;
}

calls_on_error :
    {A : Type 0} (what : Bytes) (x : A) (f : Bytes → A)
    → ¬ (what ≡ [])
    → complete (some what) x f ≡ f what
calls_on_error [] x f n = absurd (n refl)
calls_on_error (c ∷ what) x f n = refl

abbrev one_promise_IsAddon : IsAddon
one_promise_IsAddon = record {
  settled = λ d e. e;
  undefined_keeps = λ d e. refl;
  error_value_keeps = λ d what e. refl;
  resolve_settles = λ d v e q. settles true v e q;
  reject_settles = λ d v e q. settles false v e q;
  calls_on_ok = λ x f. refl;
  calls_on_error = calls_on_error;
}
  where
    settles :
        (b : Bool) (v : Bytes) (e : Option (Bool × Bytes))
        → e ≡ none
        → settle_once b v e ≡ some (b, v)
    settles b v e q = rw q refl

-- A worker whose task throws the text "x".
abbrev failing : PromiseWorker ℕ
failing = record { deferred = tt; task = λ w. (throws (b'x' ∷ []), suc w); resolver = none }

run-Expected_example :
    (e : Option (Bool × Bytes)) × (run failing 0 none ≡ returns e) × (e ≡ some (false, b'x' ∷ []))
run-Expected_example =
    run-Expected one_promise_IsAddon failing 0 none refl (λ what e n. ground arith)
      (λ r v e1 q k. ground arith)
