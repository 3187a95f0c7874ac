-- ===== src/Interface/Results.antt =====
-- How the type of a method's result follows from its last statement.
use rocksdb_ts.Prelude.{
  ℕ, ◌≡◌, refl, inl, inr, Bool, true, false, Option, none, some, if◌then◌else◌, arith,
}
use rocksdb_ts.Host.{Host, Address, Bytes, Encoding, Finalizer, Control, return_null, proceed}
use rocksdb_ts.Machine.{State, Outcome, ok, returned, fault, M, pure, ◌>>=◌, ◌>>◌, and_then}
use rocksdb_ts.Machine.Macros.{
  make, make_value, napi_call_throws, napi_status_throws, create_external, return_external,
}
use rocksdb_ts.Database.Records.{value_or_throw}
use rocksdb_ts.Interface.{
  Context, ResultType, void, boolean, number, bigint, buffer, string, context, pair,
}
use rocksdb_ts.Interface.Values.{finalizer_of, HasType, IsResult, Returns, AfterValue, Yields}

module _ ⦃h : Host⦄ where
  AfterValue-and_then :
      {A B : Type 0} (P : A → Type 0) (Q : B → Type 0) (r : Outcome A) (k : A → M B)
      → AfterValue P r
      → ((a : A) (s : State) → P a → AfterValue Q (k a s))
      → AfterValue Q (and_then r k)
  AfterValue-and_then P Q (ok a t) k x f = f a t x
  AfterValue-and_then P Q (returned t) k x f = tt
  AfterValue-and_then P Q (fault e) k x f = tt

  anything : {A : Type 0} (r : Outcome A) → AfterValue (λ a. Unit {0}) r
  anything (ok a t) = tt
  anything (returned t) = tt
  anything (fault e) = tt

  pub Yields-bind :
      {u : Bool} {τ : ResultType} {A : Type 0} (m : M A) {k : A → M (Option h.napi.Value)}
      → ((a : A) → Yields u τ (k a))
      → Yields u τ (m >>= k)
  Yields-bind {u} {τ} m {k} f = record {
    yields = λ s.
        AfterValue-and_then (λ a. Unit) (Returns u τ) (m s) k (anything (m s))
          (λ a t x. (f a).yields t);
  }

  pub Yields-then :
      {u : Bool} {τ : ResultType} {A : Type 0} (m : M A) {k : M (Option h.napi.Value)}
      → Yields u τ k
      → Yields u τ (m >> k)
  Yields-then m f = Yields-bind m λ a. f

  -- The two forms of a result.
  pub Returns-result :
      (u : Bool) (τ : ResultType) (r : Option h.napi.Value) → IsResult τ r → Returns u τ r
  Returns-result true τ r x = inl x
  Returns-result false τ r x = x

  pub Yields-undefined : (u : Bool) → Yields u void (pure none)
  Yields-undefined u = record { yields = λ s. Returns-result u void none tt }

  pub Yields-omitted : (τ : ResultType) → Yields true τ (pure none)
  Yields-omitted τ = record { yields = λ s. inr tt }

  pub Yields-if :
      {u : Bool} {τ : ResultType} (b : Bool) {m n : M (Option h.napi.Value)}
      → Yields u τ m
      → Yields u τ n
      → Yields u τ (if b then m else n)
  Yields-if true f g = f
  Yields-if false f g = g

  -- A call that gives values of a type.
  pub record Produces (τ : ResultType) (f : h.napi.Env → Option (h.napi.Value × h.napi.Env))
      : Type 0 where
    pub gives :
        (e : h.napi.Env) (v : h.napi.Value) (d : h.napi.Env) → f e ≡ some (v, d) → HasType τ v

  pub get_boolean-Produces : (b : Bool) → Produces boolean (h.napi.get_boolean b)
  get_boolean-Produces b = record { gives = λ e v d q. (b, (e, d, q)) }

  pub create_int32-Produces : (n : ℕ) → Produces number (h.napi.create_int32 n)
  create_int32-Produces n = record { gives = λ e v d q. (n, (e, d, q)) }

  pub create_bigint_uint64-Produces : (n : ℕ) → Produces bigint (h.napi.create_bigint_uint64 n)
  create_bigint_uint64-Produces n = record { gives = λ e v d q. (n, (e, d, q)) }

  pub create_buffer_copy-Produces : (b : Bytes) → Produces buffer (h.napi.create_buffer_copy b)
  create_buffer_copy-Produces b = record { gives = λ e v d q. (b, (e, d, q)) }

  pub create_string-Produces :
      (enc : Encoding) (b : Bytes) → Produces string (h.napi.create_string enc b)
  create_string-Produces enc b = record { gives = λ e v d q. (enc, b, (e, d, q)) }

  pub get_undefined-Produces : Produces void h.napi.get_undefined
  get_undefined-Produces = record { gives = λ e v d q. (e, d, q) }

  -- What a macro does where its call fails: the function goes on with the old value alone.
  AfterValue-stale :
      {A : Type 0} (P : A → Type 0) (s : State) (old : Option A) (r : Control × h.napi.Env)
      → h.napi.on_bad_status s.env ≡ r
      → ((a : A) → old ≡ some a → P a)
      → AfterValue P (napi_status_throws old none s)
  unfolding napi_status_throws
  AfterValue-stale P s old (return_null, e) q f = rw (q, AfterValue) tt
  AfterValue-stale P s none (proceed, e) q f = rw (q, AfterValue) tt
  AfterValue-stale P s (some a) (proceed, e) q f = rw (q, AfterValue) (f a refl)

  AfterValue-make :
      (P : Option h.napi.Value → Type 0) (s : State) (old : Option (Option h.napi.Value))
      (f : h.napi.Env → Option (h.napi.Value × h.napi.Env)) (r : Option (h.napi.Value × h.napi.Env))
      → f s.env ≡ r
      → ((a : Option h.napi.Value) → old ≡ some a → P a)
      → ((v : h.napi.Value) (d : h.napi.Env) → f s.env ≡ some (v, d) → P (some v))
      → AfterValue P (make old f s)
  unfolding make napi_call_throws
  AfterValue-make P s old f none q g k =
      rw (q, AfterValue) (AfterValue-stale P s old (h.napi.on_bad_status s.env) refl g)
  AfterValue-make P s old f (some (v, d)) q g k = rw (q, AfterValue) (k v d q)

  pub Yields-make :
      (u : Bool) (τ : ResultType) {f : h.napi.Env → Option (h.napi.Value × h.napi.Env)}
      → Produces τ f
      → Yields u τ (make none f)
  Yields-make u τ {f} x = record {
    yields = λ s.
        AfterValue-make (Returns u τ) s none f (f s.env) refl (λ a e. ground arith)
          (λ v d q. Returns-result u τ (some v) (x.gives s.env v d q));
  }

  -- The end of the readers of a record.
  pub value_or_throw-Yields :
      (τ : ResultType) {wrap : Bytes → h.napi.Env → Option (h.napi.Value × h.napi.Env)}
      (r : h.rocks.Status × Bytes)
      → ((b : Bytes) → Produces τ (wrap b))
      → Yields true τ (value_or_throw wrap r)
  unfolding value_or_throw
  value_or_throw-Yields τ {wrap} (status, b) x =
      Yields-if (h.rocks.ok? status)
        (record {
          yields = λ s.
              AfterValue-make (Returns true τ) s (some none) (wrap b) (wrap b s.env) refl
                (λ a e. inr (left_out a e)) (λ v d q. inl ((x b).gives s.env v d q));
        })
        (Yields-if (h.rocks.is_not_found status)
          (record {
            yields = λ s.
                AfterValue-make (Returns true τ) s (some none) h.napi.get_undefined
                  (h.napi.get_undefined s.env) refl (λ a e. inr (left_out a e))
                  (λ v d q. inr (s.env, d, q));
          })
          (Yields-then _ (Yields-omitted τ)))
    where
      left_out : (a : Option h.napi.Value) → some none ≡ some a → IsResult void a
      left_out none e = tt
      left_out (some v) e = ground arith

  AfterValue-registered :
      (c : Context) (s : State) (p : Address) (fin : Finalizer) (hint : Address)
      (r : Option (h.napi.Value × h.napi.Env))
      → h.napi.create_external p fin hint s.env ≡ r
      → finalizer_of c ≡ fin
      → AfterValue (HasType (context c)) (create_external p fin hint s)
  unfolding create_external
  AfterValue-registered c s p fin hint none q k =
      rw (q, AfterValue)
        (AfterValue-stale (HasType (context c)) s none (h.napi.on_bad_status s.env) refl
          (λ a e. ground arith))
  AfterValue-registered c s p fin hint (some (v, d)) q k =
      rw (q, AfterValue) (p, hint, (s.env, d, rw k q))

  pub Yields-some :
      (u : Bool) (τ : ResultType) (v : h.napi.Value) → HasType τ v → Yields u τ (pure (some v))
  Yields-some u τ v x = record { yields = λ s. Returns-result u τ (some v) x }

  pub Yields-create_external :
      (u : Bool) (c : Context) (p : Address) (fin : Finalizer) (hint : Address)
      {n : h.napi.Value → M (Option h.napi.Value)}
      → finalizer_of c ≡ fin
      → ((v : h.napi.Value) → HasType (context c) v → Yields u (context c) (n v))
      → Yields u (context c) (create_external p fin hint >>= n)
  Yields-create_external u c p fin hint {n} k f = record {
    yields = λ s.
        AfterValue-and_then (HasType (context c)) (Returns u (context c))
          (create_external p fin hint s) n
          (AfterValue-registered c s p fin hint (h.napi.create_external p fin hint s.env) refl k)
          (λ v t x. (f v x).yields t);
  }

  pub Yields-return_external :
      (u : Bool) (c : Context) (p : Address) (fin : Finalizer) (hint : Address)
      → finalizer_of c ≡ fin
      → Yields u (context c) (return_external p fin hint)
  unfolding return_external
  Yields-return_external u c p fin hint k =
      Yields-create_external u c p fin hint k λ v. Yields-some u (context c) v

  AfterValue-make_value :
      (τ : ResultType) (s : State) {f : h.napi.Env → Option (h.napi.Value × h.napi.Env)}
      (r : Option (h.napi.Value × h.napi.Env))
      → f s.env ≡ r
      → Produces τ f
      → AfterValue (HasType τ) (make_value f s)
  unfolding make_value napi_call_throws
  AfterValue-make_value τ s none q x =
      rw (q, AfterValue)
        (AfterValue-stale (HasType τ) s none (h.napi.on_bad_status s.env) refl
          (λ a e. ground arith))
  AfterValue-make_value τ s (some (v, d)) q x = rw (q, AfterValue) (x.gives s.env v d q)

  -- A value that is made first and returned after more work on it.
  pub Yields-make_value :
      (u : Bool) (τ : ResultType) {f : h.napi.Env → Option (h.napi.Value × h.napi.Env)}
      {n : h.napi.Value → M (Option h.napi.Value)}
      → Produces τ f
      → ((v : h.napi.Value) → HasType τ v → Yields u τ (n v))
      → Yields u τ (make_value f >>= n)
  Yields-make_value u τ {f} {n} x g = record {
    yields = λ s.
        AfterValue-and_then (HasType τ) (Returns u τ) (make_value f s) n
          (AfterValue-make_value τ s (f s.env) refl x) (λ v t y. (g v y).yields t);
  }

  pub pair-Produces : (τ : ResultType) → Produces (pair τ) (h.napi.create_array_with_length 2)
  pair-Produces τ = record { gives = λ e v d q. (e, d, q) }

  pub Yields-array :
      (u : Bool) (τ : ResultType) {n : h.napi.Value → M (Option h.napi.Value)}
      → ((v : h.napi.Value) → HasType (pair τ) v → Yields u (pair τ) (n v))
      → Yields u (pair τ) (make_value (h.napi.create_array_with_length 2) >>= n)
  Yields-array u τ = Yields-make_value u (pair τ) (pair-Produces τ)

-- The rules from which a search finds the type of a method's result.
pub ruleset result_rules = (
  Yields-bind, Yields-then, Yields-undefined, Yields-make, value_or_throw-Yields,
  Yields-return_external, Yields-create_external, Yields-some, get_boolean-Produces,
  create_int32-Produces, create_bigint_uint64-Produces, create_buffer_copy-Produces,
  create_string-Produces,
)
