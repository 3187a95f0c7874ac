-- ===== src/Host/Engine.antt =====
-- N-API (node_api.h) as the binding calls it, and the macros of napi-macros. A call that gives
-- `none` is one whose status is not `napi_ok`.
use rocksdb_ts.Prelude.{ℕ, Bool, Option, List}

-- A pointer, 0 for `nullptr`.
abbrev pub Address : Type 0
Address = ℕ

abbrev pub Bytes : Type 0
Bytes = List ℕ

-- What NAPI_STATUS_THROWS does to the function that it stands in.
pub data Control : Type 0 where
  return_null proceed : Control

-- The two suffixes of `napi_get_value_string_##type` that the binding uses.
pub data Encoding : Type 0 where
  utf8 latin1 : Encoding

-- The static functions of binding.cc that are handed to the engine as finalizers.
pub data Finalizer : Type 0 where
  rocksdb_slice_finalize rocksdb_write_options_finalize rocksdb_options_finalize : Finalizer
  rocksdb_finalize rocksdb_iterator_finalize rocksdb_batch_finalize : Finalizer
  rocksdb_batch_write_async_finalize rocksdb_snapshot_finalize : Finalizer
  rocksdb_read_options_finalize : Finalizer

pub record Napi : Type 1 where
  -- The engine's own state, JavaScript values, the arguments of a call, and the engine's handles.
  pub Env : Type 0
  pub Value : Type 0
  pub Info : Type 0
  pub Region : Type 0
  pub Ref : Type 0
  pub Deferred : Type 0
  pub Work : Type 0
  -- Errors: the macro's reaction to a bad status, and `napi_throw_error(env, nullptr, message)`.
  pub on_bad_status : Env → Control × Env
  pub throw_error : Bytes → Env → Env
  -- NAPI_ARGV(n) and the reading of arguments. A buffer is the start of its memory and a length.
  pub get_cb_info : ℕ → Info → Env → Option (ℕ → Value)
  pub get_value_external : Value → Env → Option Address
  pub get_buffer_info : Value → Env → Option (Region × ℕ)
  pub region_bytes : Region → ℕ → Env → Option Bytes
  pub string_length : Encoding → Value → Env → Option ℕ
  pub string_copy : Encoding → Value → ℕ → Env → Option Bytes
  pub get_value_bool : Value → Env → Option Bool
  pub get_value_int32 : Value → Env → Option ℕ
  pub get_value_bigint_uint64 : Value → Env → Option (ℕ × Bool)
  -- An int32_t is given by its bit pattern.
  -- The making of values. `create_external` is given the data, the finalizer and its hint.
  pub create_external : Address → Finalizer → Address → Env → Option (Value × Env)
  pub create_buffer_copy : Bytes → Env → Option (Value × Env)
  pub create_string : Encoding → Bytes → Env → Option (Value × Env)
  pub create_int32 : ℕ → Env → Option (Value × Env)
  pub create_bigint_uint64 : ℕ → Env → Option (Value × Env)
  pub get_undefined : Env → Option (Value × Env)
  pub get_boolean : Bool → Env → Option (Value × Env)
  pub create_array_with_length : ℕ → Env → Option (Value × Env)
  pub set_element : Value → ℕ → Value → Env → Option Env
  -- References, promises and background work.
  pub create_reference : Value → ℕ → Env → Option (Ref × Env)
  pub delete_reference : Ref → Env → Option Env
  pub add_finalizer : Value → Address → Finalizer → Env → Option Env
  pub create_promise : Env → Option (Deferred × Value × Env)
  pub create_async_work : Value → Address → Env → Option (Work × Env)
  pub queue_async_work : Work → Env → Option Env
  pub delete_async_work : Work → Env → Option Env
  pub resolve_deferred : Deferred → Value → Env → Option Env
  pub reject_deferred : Deferred → Value → Env → Option Env
