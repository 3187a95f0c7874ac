-- ===== src/Ownership/Parts.antt =====
-- The effects and the macros: what each does to the heap.
use rocksdb_ts.Prelude.{ℕ, ◌≡◌, refl, Bool, true, false, Option, none, some, List, arith}
use rocksdb_ts.Host.{Host, Address, Control, return_null, proceed}
use rocksdb_ts.Machine.{nowhere, State}
use rocksdb_ts.Machine.Macros.{
  napi_status_throws, napi_call_throws, make, make_value, tell, napi_argv, from_external_argument,
  bool_argument, int32_argument, uint64_argument, slice_from_buffer_argument, rocksdb_status_throws,
}
use rocksdb_ts.Ownership.{Steady, After, IsSteady}
use rocksdb_ts.Ownership.Steps.{Steady-refl}

module _ ⦃h : Host⦄ where
  -- A change of the engine, the library and the logger alone.
  pub Steady-outside :
      {s : State} {e : h.napi.Env} {l : h.rocks.Lib} {ys : List Address} {b : Bool}
      {g : h.logging.Loggers}
      → Steady s (record s { env = e; lib = l; queued = ys; logging_enabled = b; loggers = g })
  Steady-outside = record {
    grows = omega arith;
    lives = λ p k l e. e;
    room = λ m. m;
    refs = λ v x. x;
    same = refl;
  }

  after_bad_status :
      {A : Type 0} (s : State) (old : Option A) (r : Control × h.napi.Env)
      → h.napi.on_bad_status s.env ≡ r
      → After (Steady s) (napi_status_throws old none s)
  unfolding napi_status_throws
  after_bad_status s old (return_null, e) q = rw q Steady-outside
  after_bad_status s none (proceed, e) q = rw q tt
  after_bad_status s (some a) (proceed, e) q = rw q Steady-outside

  pub After-napi_status_throws :
      {A : Type 0} (s : State) (old r : Option A) → After (Steady s) (napi_status_throws old r s)
  unfolding napi_status_throws
  After-napi_status_throws s old (some a) = Steady-refl s
  After-napi_status_throws s old none = after_bad_status s old (h.napi.on_bad_status s.env) refl

  pub napi_status_throws-IsSteady :
      {A : Type 0} (old r : Option A) → IsSteady (napi_status_throws old r)
  napi_status_throws-IsSteady old r = record { steady = λ s. After-napi_status_throws s old r }

  After-napi_call_throws :
      {A : Type 0} (s : State) (old : Option A) (f : h.napi.Env → Option (A × h.napi.Env))
      (r : Option (A × h.napi.Env))
      → f s.env ≡ r
      → After (Steady s) (napi_call_throws old f s)
  unfolding napi_call_throws
  After-napi_call_throws s old f none q = rw (q, After) (After-napi_status_throws s old none)
  After-napi_call_throws s old f (some (a, e)) q = rw (q, After) Steady-outside

  pub napi_call_throws-IsSteady :
      {A : Type 0} (old : Option A) (f : h.napi.Env → Option (A × h.napi.Env))
      → IsSteady (napi_call_throws old f)
  napi_call_throws-IsSteady old f = record {
    steady = λ s. After-napi_call_throws s old f (f s.env) refl;
  }

  pub make-IsSteady :
      (old : Option (Option h.napi.Value)) (f : h.napi.Env → Option (h.napi.Value × h.napi.Env))
      → IsSteady (make old f)
  unfolding make
  make-IsSteady old f = napi_call_throws-IsSteady old _

  pub make_value-IsSteady :
      (f : h.napi.Env → Option (h.napi.Value × h.napi.Env)) → IsSteady (make_value f)
  unfolding make_value
  make_value-IsSteady f = napi_call_throws-IsSteady none _

  pub tell-IsSteady : (f : h.napi.Env → Option h.napi.Env) → IsSteady (tell f)
  unfolding tell
  tell-IsSteady f = napi_call_throws-IsSteady (some tt) _

  pub napi_argv-IsSteady : (n : ℕ) (info : h.napi.Info) → IsSteady (napi_argv n info)
  unfolding napi_argv
  napi_argv-IsSteady n info = record { steady = λ s. After-napi_status_throws s none _ }

  pub from_external_argument-IsSteady : (v : h.napi.Value) → IsSteady (from_external_argument v)
  unfolding from_external_argument
  from_external_argument-IsSteady v = record { steady = λ s. After-napi_status_throws s (some 0) _ }

  pub bool_argument-IsSteady : (v : h.napi.Value) → IsSteady (bool_argument v)
  unfolding bool_argument
  bool_argument-IsSteady v = record { steady = λ s. After-napi_status_throws s none _ }

  pub int32_argument-IsSteady : (v : h.napi.Value) → IsSteady (int32_argument v)
  unfolding int32_argument
  int32_argument-IsSteady v = record { steady = λ s. After-napi_status_throws s none _ }

  pub uint64_argument-IsSteady : (v : h.napi.Value) → IsSteady (uint64_argument v)
  unfolding uint64_argument
  uint64_argument-IsSteady v = record { steady = λ s. After-napi_status_throws s none _ }

  pub slice_from_buffer_argument-IsSteady :
      (v : h.napi.Value) → IsSteady (slice_from_buffer_argument v)
  unfolding slice_from_buffer_argument
  slice_from_buffer_argument-IsSteady v = record {
    steady = λ s. After-napi_status_throws s (some (record { start = nowhere; size = 0 })) _;
  }

  pub rocksdb_status_throws-IsSteady : (st : h.rocks.Status) → IsSteady (rocksdb_status_throws st)
  unfolding rocksdb_status_throws
  rocksdb_status_throws-IsSteady st = record { steady = λ s. lemma s (h.rocks.ok? st) refl }
    where
      lemma :
          (s : State) (b : Bool)
          → h.rocks.ok? st ≡ b
          → After (Steady s) (rocksdb_status_throws st s)
      lemma s true q = rw q (Steady-refl s)
      lemma s false q = rw q Steady-outside
