-- ===== src/Machine/Calls.antt =====
-- Calls with good arguments: what the engine answers when a method reads them.
use rocksdb_ts.Prelude.{ℕ, ◌+◌, ◌<◌, ◌≡◌, Bool, some, length}
use rocksdb_ts.Host.{Host, Address, Bytes, Encoding}

module _ ⦃h : Host⦄ where
  -- `argv` is what NAPI_ARGV(n) reads.
  abbrev pub Args : ℕ → h.napi.Info → h.napi.Env → (ℕ → h.napi.Value) → Type 0
  Args n info e argv = h.napi.get_cb_info n info e ≡ some argv

  -- The value is an external over the pointer.
  abbrev pub Points : h.napi.Value → h.napi.Env → Address → Type 0
  Points v e p = h.napi.get_value_external v e ≡ some p

  -- The value is a string with that encoding: its length is known, and a copy into an array with
  -- room for the bytes and the final zero writes all of it.
  pub record Encodes (enc : Encoding) (v : h.napi.Value) (e : h.napi.Env) (b : Bytes) : Type 0 where
    pub measured : h.napi.string_length enc v e ≡ some (length b)
    pub copied : h.napi.string_copy enc v (length b + 1) e ≡ some b
    pub fits : length b + 1 < h.size_mod

  -- A call with one object as its argument.
  pub record ObjectCall (n : ℕ) (info : h.napi.Info) (e : h.napi.Env) (p : Address) : Type 0 where
    pub argv : ℕ → h.napi.Value
    pub args : Args n info e argv
    pub target : Points (argv 0) e p

  -- A call with an object and a Boolean.
  pub record FlagCall (info : h.napi.Info) (e : h.napi.Env) (p : Address) (b : Bool) : Type 0 where
    pub argv : ℕ → h.napi.Value
    pub args : Args 2 info e argv
    pub target : Points (argv 0) e p
    pub value : h.napi.get_value_bool (argv 1) e ≡ some b

  -- A call with an object and a bigint, of which the engine gives the low 64 bits.
  pub record BigintCall (info : h.napi.Info) (e : h.napi.Env) (p : Address) (v : ℕ) : Type 0 where
    pub argv : ℕ → h.napi.Value
    pub args : Args 2 info e argv
    pub target : Points (argv 0) e p
    pub lossless : Bool
    pub value : h.napi.get_value_bigint_uint64 (argv 1) e ≡ some (v, lossless)

  -- A call with two objects.
  pub record PairCall (info : h.napi.Info) (e : h.napi.Env) (p q : Address) : Type 0 where
    pub argv : ℕ → h.napi.Value
    pub args : Args 2 info e argv
    pub target : Points (argv 0) e p
    pub value : Points (argv 1) e q

  -- `undefined` can be made, which leaves the engine as it was.
  abbrev pub HasUndefined : h.napi.Env → Type 0
  HasUndefined e = (v : h.napi.Value) × (h.napi.get_undefined e ≡ some (v, e))
