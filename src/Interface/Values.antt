-- ===== src/Interface/Values.antt =====
-- What a value of JavaScript is, by the call of N-API that makes it.
use rocksdb_ts.Prelude.{ℕ, ◌≡◌, ◌⊎◌, Bool, true, false, Option, none, some}
use rocksdb_ts.Host.{Host, Address, Bytes, Encoding, Finalizer}
use rocksdb_ts.Machine.{State, Outcome, ok, returned, fault, M}
use rocksdb_ts.Interface.{
  Context, batch_context, slice_context, snapshot_context, iterator_context, database_context,
  options_context, read_options_context, write_options_context, ResultType, void, boolean, number,
  bigint, buffer, string, promise, context, pair,
}

-- The finalizer that stands for the class of a context.
abbrev pub finalizer_of : Context → Finalizer
finalizer_of batch_context = Finalizer.rocksdb_batch_finalize
finalizer_of slice_context = Finalizer.rocksdb_slice_finalize
finalizer_of snapshot_context = Finalizer.rocksdb_snapshot_finalize
finalizer_of iterator_context = Finalizer.rocksdb_iterator_finalize
finalizer_of database_context = Finalizer.rocksdb_finalize
finalizer_of options_context = Finalizer.rocksdb_options_finalize
finalizer_of read_options_context = Finalizer.rocksdb_read_options_finalize
finalizer_of write_options_context = Finalizer.rocksdb_write_options_finalize

module _ ⦃h : Host⦄ where
  -- The call has given the value.
  abbrev pub Gives : (h.napi.Env → Option (h.napi.Value × h.napi.Env)) → h.napi.Value → Type 0
  Gives f v = (e : h.napi.Env) × (d : h.napi.Env) × (f e ≡ some (v, d))

  -- The value has the type: the call of N-API for that type has made it.
  abbrev pub HasType : ResultType → h.napi.Value → Type 0
  HasType void v = Gives h.napi.get_undefined v
  HasType boolean v = (b : Bool) × Gives (h.napi.get_boolean b) v
  HasType number v = (n : ℕ) × Gives (h.napi.create_int32 n) v
  HasType bigint v = (n : ℕ) × Gives (h.napi.create_bigint_uint64 n) v
  HasType buffer v = (b : Bytes) × Gives (h.napi.create_buffer_copy b) v
  HasType string v = (enc : Encoding) × (b : Bytes) × Gives (h.napi.create_string enc b) v
  HasType promise v =
      (d : h.napi.Deferred) × (e : h.napi.Env) × (f : h.napi.Env) × (h.napi.create_promise e
        ≡ some (d, v, f))
  HasType (context c) v =
      (p : Address) × (hint : Address) × Gives (h.napi.create_external p (finalizer_of c) hint) v
  HasType (pair τ) v = Gives (h.napi.create_array_with_length 2) v

  -- What a method returns, other than by an early return. NULL is `undefined`.
  abbrev pub IsResult : ResultType → Option h.napi.Value → Type 0
  IsResult void none = Unit
  IsResult _ none = ⊥
  IsResult τ (some v) = HasType τ v

  -- The method may also leave the value out.
  abbrev pub Returns : Bool → ResultType → Option h.napi.Value → Type 0
  Returns true τ r = IsResult τ r ⊎ IsResult void r
  Returns false τ r = IsResult τ r

  abbrev pub AfterValue : {A : Type 0} → (A → Type 0) → Outcome A → Type 0
  AfterValue P (ok a t) = P a
  AfterValue P (returned t) = Unit
  AfterValue P (fault e) = Unit

  -- Every value that the code goes on with is such a result.
  pub record Yields (leaves_out : Bool) (τ : ResultType) (m : M (Option h.napi.Value))
      : Type 0 where
    pub yields : (s : State) → AfterValue (Returns leaves_out τ) (m s)
