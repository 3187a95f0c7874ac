-- ===== src/Safety/Parts.antt =====
-- The effects and the macros: which leave all objects, and what they tell of the value that they give.
use rocksdb_ts.Prelude.{◌≡◌, refl, ap, Bool, true, false, Option, none, some, arith}
use rocksdb_ts.Host.{Host, Address, Control, return_null, proceed, Memory, Finalizer}
use rocksdb_ts.Machine.{Cell, State}
use rocksdb_ts.Machine.Effects.{new, put_cell, library, library_do, gets}
use rocksdb_ts.Machine.Macros.{
  napi_status_throws, napi_call_throws, make, make_value, tell, bool_argument, first_of_two,
  int32_argument, uint64_argument, rocksdb_status_throws, create_external, return_external,
}
use rocksdb_ts.Safety.{Leads, Documented, Calm, Reads, Safe}
use rocksdb_ts.Safety.Steps.{Reads-bind, Reads-pure, Reads-all, Calm-refl}

module _ ⦃h : Host⦄ where
  -- A change of all but the heap.
  pub Calm-outside : {s t : State} → t.next ≡ s.next → t.cells ≡ s.cells → Calm s t
  Calm-outside {s} n c = record { grows = rw n (omega arith); same = λ p l. ap (λ f. f p) c }

  bad_status :
      {A : Type 0} (d : Documented) (s : State) (P : A → State → Type 0) (old : Option A)
      (r : Control × h.napi.Env)
      → h.napi.on_bad_status s.env ≡ r
      → r.0 ≡ return_null
      → Leads P (napi_status_throws old none s)
  unfolding napi_status_throws
  bad_status d s P old (return_null, e) q n = rw (q, Leads) tt
  bad_status d s P old (proceed, e) q n = ground arith

  -- A bad status ends the method.
  pub napi_status_throws-Leads :
      {A : Type 0} (d : Documented) (s : State) (P : A → State → Type 0) (old r : Option A)
      → ((a : A) → r ≡ some a → P a s)
      → Leads P (napi_status_throws old r s)
  unfolding napi_status_throws
  napi_status_throws-Leads d s P old (some a) f = f a refl
  napi_status_throws-Leads d s P old none f =
      bad_status d s P old (h.napi.on_bad_status s.env) refl (d.returns s.env)

  pub napi_status_throws-Reads :
      {A : Type 0} {s : State}
      → Documented
      → (old r : Option A) → Reads s (napi_status_throws old r)
  napi_status_throws-Reads {s} d old r =
      Reads-all s λ t. napi_status_throws-Leads d t _ old r (λ a e. Calm-refl t)

  Leads-napi_call_throws :
      {A : Type 0} (d : Documented) (s : State) (old : Option A)
      (f : h.napi.Env → Option (A × h.napi.Env)) (r : Option (A × h.napi.Env))
      → f s.env ≡ r
      → Leads (λ a. Calm s) (napi_call_throws old f s)
  unfolding napi_call_throws
  Leads-napi_call_throws d s old f none q =
      rw (q, Leads) (napi_status_throws-Leads d s _ old none (λ a e. Calm-refl s))
  Leads-napi_call_throws d s old f (some (a, e)) q = rw (q, Leads) (Calm-outside refl refl)

  pub napi_call_throws-Reads :
      {A : Type 0} {s : State}
      → Documented
      → (old : Option A) (f : h.napi.Env → Option (A × h.napi.Env))
      → Reads s (napi_call_throws old f)
  napi_call_throws-Reads {s} d old f =
      Reads-all s λ t. Leads-napi_call_throws d t old f (f t.env) refl

  pub make-Reads :
      {s : State}
      → Documented
      → (old : Option (Option h.napi.Value)) (f : h.napi.Env → Option (h.napi.Value × h.napi.Env))
      → Reads s (make old f)
  unfolding make
  make-Reads d old f = napi_call_throws-Reads d old _

  pub make_value-Reads :
      {s : State}
      → Documented
      → (f : h.napi.Env → Option (h.napi.Value × h.napi.Env)) → Reads s (make_value f)
  unfolding make_value
  make_value-Reads d f = napi_call_throws-Reads d none _

  pub tell-Reads :
      {s : State} → Documented → (f : h.napi.Env → Option h.napi.Env) → Reads s (tell f)
  unfolding tell
  tell-Reads d f = napi_call_throws-Reads d (some tt) _

  status-Calm :
      {A : Type 0} (d : Documented) (s : State) (r : Option A)
      → Leads (λ a. Calm s) (napi_status_throws none r s)
  status-Calm d s r = napi_status_throws-Leads d s _ none r (λ a e. Calm-refl s)

  pub bool_argument-Reads :
      {s : State} → Documented → (v : h.napi.Value) → Reads s (bool_argument v)
  unfolding bool_argument
  bool_argument-Reads {s} d v = Reads-all s λ t. status-Calm d t (h.napi.get_value_bool v t.env)

  pub int32_argument-Reads :
      {s : State} → Documented → (v : h.napi.Value) → Reads s (int32_argument v)
  unfolding int32_argument
  int32_argument-Reads {s} d v = Reads-all s λ t. status-Calm d t (h.napi.get_value_int32 v t.env)

  pub uint64_argument-Reads :
      {s : State} → Documented → (v : h.napi.Value) → Reads s (uint64_argument v)
  unfolding uint64_argument
  uint64_argument-Reads {s} d v =
      Reads-all s λ t. status-Calm d t (first_of_two (h.napi.get_value_bigint_uint64 v t.env))

  pub rocksdb_status_throws-Reads :
      {s : State} (st : h.rocks.Status) → Reads s (rocksdb_status_throws st)
  unfolding rocksdb_status_throws
  rocksdb_status_throws-Reads {s} st = Reads-all s λ t. raises t (h.rocks.ok? st) refl
    where
      raises :
          (t : State) (b : Bool)
          → h.rocks.ok? st ≡ b
          → Leads (λ a. Calm t) (rocksdb_status_throws st t)
      raises t true q = rw (q, Leads) (Calm-refl t)
      raises t false q = rw (q, Leads) (Calm-outside refl refl)

  pub library-Reads :
      {s : State} {A : Type 0} (f : Memory → h.rocks.Lib → A × h.rocks.Lib) → Reads s (library f)
  unfolding library
  library-Reads {s} f = Reads-all s λ t. Calm-outside refl refl

  pub library_do-Reads :
      {s : State} (f : Memory → h.rocks.Lib → h.rocks.Lib) → Reads s (library_do f)
  unfolding library_do
  library_do-Reads {s} f = Reads-all s λ t. Calm-outside refl refl

  pub gets-Reads : {s : State} {A : Type 0} (f : State → A) → Reads s (gets f)
  gets-Reads {s} f = Reads-all s λ t. Calm-refl t

  pub new-Reads : {s : State} (c : Cell) → Reads s (new c)
  unfolding new
  new-Reads {s} c = Reads-all s λ t. record { grows = omega arith; same = λ p l. ground arith }

  pub put_cell-Safe : {s : State} (p : Address) (c : Option Cell) → Safe s (put_cell p c)
  put_cell-Safe p c = record { safe = λ t x. tt }

  registers :
      (d : Documented) (p : Address) (fin : Finalizer) (hint : Address) (t : State)
      (r : Option (h.napi.Value × h.napi.Env))
      → h.napi.create_external p fin hint t.env ≡ r
      → Leads (λ v. Calm t) (create_external p fin hint t)
  unfolding create_external
  registers d p fin hint t none q = rw (q, Leads) (status-Calm d t none)
  registers d p fin hint t (some (v, e)) q = rw (q, Leads) (Calm-outside refl refl)

  pub create_external-Reads :
      {s : State}
      → Documented
      → (p : Address) (fin : Finalizer) (hint : Address) → Reads s (create_external p fin hint)
  create_external-Reads {s} d p fin hint = Reads-all s λ t. registers d p fin hint t _ refl

  pub return_external-Reads :
      {s : State}
      → Documented
      → (p : Address) (fin : Finalizer) (hint : Address) → Reads s (return_external p fin hint)
  unfolding return_external
  return_external-Reads d p fin hint =
      Reads-bind (create_external-Reads d p fin hint) λ v. Reads-pure (some v)
