-- ===== src/Demo/Engine.antt =====
-- A small JavaScript engine: values, one pending exception, and the promises that are settled.
use rocksdb_ts.Prelude.{
  ℕ, suc, ◌-◌, ◌%◌, ◌^◌, Bool, true, Option, none, some, List, [], ◌∷◌, length, take,
}
use rocksdb_ts.Host.{Napi, Address, Bytes, return_null}

-- JavaScript values; a text is given by the bytes that both encodings give it.
pub data Value : Type 0 where
  undefined : Value
  boolean : Bool → Value
  number bigint : ℕ → Value
  buffer text : Bytes → Value
  outside : Address → Value
  array promise : ℕ → Value

-- The engine: the pending exception, how many handles it has given out, and the settled promises.
pub record Env : Type 0 where
  pub pending : Option Bytes
  pub made : ℕ
  pub settled : List (ℕ × Value)

abbrev pub argument : List Value → ℕ → Value
argument [] i = undefined
argument (v ∷ vs) i = elim i [ ℕ.zero ↦ v | ℕ.suc j ↦ argument vs j ]

abbrev pub to_external : Value → Option Address
to_external (outside p) = some p
to_external _ = none

abbrev pub to_buffer : Value → Option (Bytes × ℕ)
to_buffer (buffer b) = some (b, length b)
to_buffer _ = none

abbrev pub to_text : Value → Option Bytes
to_text (text b) = some b
to_text _ = none

abbrev pub to_bool : Value → Option Bool
to_bool (boolean b) = some b
to_bool _ = none

abbrev pub to_number : Value → Option ℕ
to_number (number n) = some n
to_number _ = none

abbrev pub to_bigint : Value → Option (ℕ × Bool)
to_bigint (bigint n) = some (n % 2 ^ 64, true)
to_bigint _ = none

abbrev pub option_map {ℓ} : {A B : Type ℓ} → (A → B) → Option A → Option B
option_map f none = none
option_map f (some a) = some (f a)

-- A call that the engine refuses while an exception is pending.
abbrev pub unless_pending {ℓ} : {A : Type ℓ} → Option Bytes → A → Option A
unless_pending none a = some a
unless_pending (some b) a = none

abbrev pub throw : Bytes → Env → Env
throw b e = record e { pending = some b }

abbrev pub engine : Napi
engine = record {
  Env = Env;
  Value = Value;
  Info = List Value;
  Region = Bytes;
  Ref = Value;
  Deferred = ℕ;
  Work = ℕ;
  on_bad_status = λ e. (return_null, throw (102 ∷ []) e);
  throw_error = throw;
  get_cb_info = λ n info e. some (argument info);
  get_value_external = λ v e. to_external v;
  get_buffer_info = λ v e. to_buffer v;
  region_bytes = λ r n e. some r;
  string_length = λ enc v e. option_map length (to_text v);
  string_copy = λ enc v n e. option_map (take (n - 1)) (to_text v);
  get_value_bool = λ v e. to_bool v;
  get_value_int32 = λ v e. to_number v;
  get_value_bigint_uint64 = λ v e. to_bigint v;
  create_external = λ p fin hint e. unless_pending e.pending (outside p, e);
  create_buffer_copy = λ b e. some (buffer b, e);
  create_string = λ enc b e. some (text b, e);
  create_int32 = λ n e. some (number n, e);
  create_bigint_uint64 = λ n e. some (bigint n, e);
  get_undefined = λ e. some (undefined, e);
  get_boolean = λ b e. some (boolean b, e);
  create_array_with_length = λ n e. some (array e.made, record e { made = suc e.made });
  set_element = λ a i v e. some e;
  create_reference = λ v n e. some (v, e);
  delete_reference = λ r e. some e;
  add_finalizer = λ v p fin e. some e;
  create_promise =
      λ e. unless_pending e.pending (e.made, promise e.made, record e { made = suc e.made });
  create_async_work = λ id p e. some (e.made, record e { made = suc e.made });
  queue_async_work = λ w e. some e;
  delete_async_work = λ w e. some e;
  resolve_deferred = λ d v e. some (record e { settled = (d, v) ∷ e.settled });
  reject_deferred = λ d v e. some (record e { settled = (d, v) ∷ e.settled });
}
