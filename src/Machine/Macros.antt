-- ===== src/Machine/Macros.antt =====
-- The macros of binding.cc and the calls of N-API that they stand around.
use rocksdb_ts.Prelude.{
  ℕ, ◌+◌, ◌%◌, Bool, Option, none, some, [], ◌∷◌, ◌==◌, leb, if◌then◌else◌, length,
}
use rocksdb_ts.Host.{Host, Address, Bytes, Control, return_null, proceed, Encoding, Finalizer}
use rocksdb_ts.Machine.{
  dangling, indeterminate, overflow, Cell, nowhere, region, array, Slice, chars_cell, ok, returned,
  fault, M, pure, ◌>>=◌, ◌>>◌,
}
use rocksdb_ts.Machine.Effects.{new, put_cell, delete_chars}

module _ ⦃h : Host⦄ where
  -- Where the macro lets the function go on, a variable keeps the value that it had, if any.
  abbrev stale : {A : Type 0} → Option A → M A
  stale (some a) s = ok a s
  stale none s = fault indeterminate

  abbrev after_bad_status : {A : Type 0} → Option A → Control × h.napi.Env → M A
  after_bad_status old (return_null, e) s = returned (record s { env = e })
  after_bad_status old (proceed, e) s = stale old (record s { env = e })

  -- NAPI_STATUS_THROWS around a call with an out parameter, given the parameter's old value.
  unfoldable pub napi_status_throws : {A : Type 0} → Option A → Option A → M A
  napi_status_throws old (some a) s = ok a s
  napi_status_throws old none s = after_bad_status old (h.napi.on_bad_status s.env) s

  abbrev keep_env : {A : Type 0} → (A × h.napi.Env) → M A
  keep_env (a, e) s = ok a (record s { env = e })

  -- The same around a call that also changes the engine.
  unfoldable pub napi_call_throws :
      {A : Type 0} → Option A → (h.napi.Env → Option (A × h.napi.Env)) → M A
  unfolding napi_status_throws
  napi_call_throws old f s = elim (f s.env) [
    | some r ↦ keep_env r s
    | none ↦ napi_status_throws old none s
  ]

  abbrev value_of : Option (h.napi.Value × h.napi.Env) → Option (Option h.napi.Value × h.napi.Env)
  value_of none = none
  value_of (some (v, e)) = some (some v, e)

  -- A call that makes the value to be returned. `old` is what the variable `result` held.
  unfoldable pub make :
      Option (Option h.napi.Value)
      → (h.napi.Env → Option (h.napi.Value × h.napi.Env))
      → M (Option h.napi.Value)
  unfolding napi_call_throws
  make old f = napi_call_throws old (λ e. value_of (f e))

  -- A call that makes a value which the method uses further.
  unfoldable pub make_value : (h.napi.Env → Option (h.napi.Value × h.napi.Env)) → M h.napi.Value
  unfolding napi_call_throws
  make_value f = napi_call_throws none f

  -- A call that only changes the engine.
  abbrev unit_of : Option h.napi.Env → Option (Unit {0} × h.napi.Env)
  unit_of none = none
  unit_of (some e) = some (tt, e)

  unfoldable pub tell : (h.napi.Env → Option h.napi.Env) → M (Unit {0})
  unfolding napi_call_throws
  tell f = napi_call_throws (some tt) (λ e. unit_of (f e))

  -- NAPI_ARGV(n)
  unfoldable pub napi_argv : ℕ → h.napi.Info → M (ℕ → h.napi.Value)
  unfolding napi_status_throws
  napi_argv n info s = napi_status_throws none (h.napi.get_cb_info n info s.env) s

  -- FROM_EXTERNAL_ARGUMENT
  unfoldable pub from_external_argument : h.napi.Value → M Address
  unfolding napi_status_throws
  from_external_argument v s = napi_status_throws (some 0) (h.napi.get_value_external v s.env) s

  unfoldable pub bool_argument : h.napi.Value → M Bool
  unfolding napi_status_throws
  bool_argument v s = napi_status_throws none (h.napi.get_value_bool v s.env) s

  unfoldable pub int32_argument : h.napi.Value → M ℕ
  unfolding napi_status_throws
  int32_argument v s = napi_status_throws none (h.napi.get_value_int32 v s.env) s

  abbrev pub first_of_two : Option (ℕ × Bool) → Option ℕ
  first_of_two none = none
  first_of_two (some (n, lossless)) = some n

  -- `napi_get_value_bigint_uint64`; the binding ignores whether the value was lossless.
  unfoldable pub uint64_argument : h.napi.Value → M ℕ
  unfolding napi_status_throws
  uint64_argument v s =
      napi_status_throws none (first_of_two (h.napi.get_value_bigint_uint64 v s.env)) s

  abbrev pub region_slice : Option (h.napi.Region × ℕ) → Option Slice
  region_slice none = none
  region_slice (some (r, n)) = some (record { start = region r; size = n })

  abbrev pub array_slice : Address → ℕ → Slice
  array_slice p n = record { start = array p; size = n }

  -- SLICE_FROM_BUFFER_ARGUMENT, whose pointer and size start as 0. So do those of
  -- SLICE_PTR_FROM_BUFFER_ARGUMENT and STRING_FROM_BUFFER_ARGUMENT.
  unfoldable pub slice_from_buffer_argument : h.napi.Value → M Slice
  unfolding napi_status_throws
  slice_from_buffer_argument v s =
      napi_status_throws (some (record { start = nowhere; size = 0 }))
        (region_slice (h.napi.get_buffer_info v s.env)) s

  -- The first call of SLICE_FROM_STRING_ARGUMENT: its status is ignored, and the size that it
  -- should set has no value before.
  unfoldable pub string_size : Encoding → h.napi.Value → M ℕ
  string_size enc v s = stale (h.napi.string_length enc v s.env) s

  -- The second call writes the text and a final zero, unless there is room for nothing. An array
  -- that is too small for them overflows.
  abbrev pub bytes_written : ℕ → Bytes → ℕ
  bytes_written n b = if n == 0 then 0 else length b + 1

  abbrev pub write_chars : Option Cell → Address → ℕ → Bytes → M (Unit {0})
  write_chars (some (chars_cell size old)) buf count b =
      if leb count size then put_cell buf (some (chars_cell size b)) else λ s. fault overflow
  write_chars _ buf count b = λ s. fault dangling

  -- It sets the size to what it has written, less the zero.
  unfoldable pub copy_string : Encoding → h.napi.Value → Address → ℕ → M ℕ
  unfolding napi_status_throws
  copy_string enc v buf n s = elim (h.napi.string_copy enc v n s.env) [
    | some b ↦ (write_chars (s.cells buf) buf (bytes_written n b) b >> pure (length b)) s
    | none ↦ napi_status_throws (some n) none s
  ]

  -- SLICE_FROM_STRING_ARGUMENT
  unfoldable pub slice_from_string_argument : Encoding → h.napi.Value → M Slice
  unfolding string_size copy_string new
  slice_from_string_argument enc v = do
    n ← string_size enc v
    let size = (n + 1) % h.size_mod
    buf ← new (chars_cell size [])
    written ← copy_string enc v buf size
    pure (array_slice buf written)

  -- SLICE_FROM_STRING_ARGUMENT_RELEASE
  unfoldable pub slice_from_string_argument_release : Slice → M (Unit {0})
  unfolding delete_chars
  slice_from_string_argument_release x = elim x.start [
    | nowhere ↦ pure tt
    | region r ↦ pure tt
    | array p ↦ delete_chars p
  ]

  -- What a `char *` shows of a text: all before the first zero.
  unfoldable pub c_str : Bytes → Bytes
  c_str [] = []
  c_str (c ∷ cs) = if c == 0 then [] else c ∷ c_str cs

  -- ROCKSDB_STATUS_THROWS: it throws, and the function goes on.
  unfoldable pub rocksdb_status_throws : h.rocks.Status → M (Unit {0})
  rocksdb_status_throws st s =
      if h.rocks.ok? st
      then ok tt s
      else ok tt (record s { env = h.napi.throw_error (c_str (h.rocks.to_string st)) s.env })

  -- `napi_create_external` with the check of its status. The engine keeps the registration.
  abbrev registered :
      Address → Finalizer → Address → Option (h.napi.Value × h.napi.Env) → M h.napi.Value
  unfolding napi_status_throws
  registered p fin hint none s = napi_status_throws none none s
  registered p fin hint (some (v, e)) s = ok v (record s {
    env = e;
    externals = record { value = v; payload = p; finalizer = fin; hint = hint } ∷ s.externals;
  })

  unfoldable pub create_external : Address → Finalizer → Address → M h.napi.Value
  unfolding registered
  create_external p fin hint s = registered p fin hint (h.napi.create_external p fin hint s.env) s

  -- The same as the last call of a method.
  unfoldable pub return_external : Address → Finalizer → Address → M (Option h.napi.Value)
  unfolding create_external
  return_external p fin hint = do v ← create_external p fin hint; pure (some v)

  -- NAPI_RETURN_UNDEFINED
  abbrev pub return_undefined : M (Option h.napi.Value)
  return_undefined = pure none
