-- ===== src/Database/Buffers.antt =====
-- Records whose keys and values are buffers: what is put is got, through buffers or through strings.
use rocksdb_ts.Prelude.{ℕ, ◌≡◌, some}
use rocksdb_ts.Host.{Host, Address, Bytes}
use rocksdb_ts.Machine.Calls.{Args, Points}

module _ ⦃h : Host⦄ where
  -- The value is a buffer with those bytes.
  pub record HasBytes (v : h.napi.Value) (e : h.napi.Env) (b : Bytes) : Type 0 where
    pub start : h.napi.Region
    pub size : ℕ
    pub buffer : h.napi.get_buffer_info v e ≡ some (start, size)
    pub content : h.napi.region_bytes start size e ≡ some b

  -- A call with a database, two buffers and options.
  pub record BufferPutCall (info : h.napi.Info) (e : h.napi.Env) (db p : Address) (k v : Bytes)
      : Type 0 where
    pub argv : ℕ → h.napi.Value
    pub args : Args 4 info e argv
    pub target : Points (argv 0) e db
    pub key : HasBytes (argv 1) e k
    pub value : HasBytes (argv 2) e v
    pub options : Points (argv 3) e p

  -- A call with a database, one buffer and options.
  pub record BufferKeyCall (info : h.napi.Info) (e : h.napi.Env) (db p : Address) (k : Bytes)
      : Type 0 where
    pub argv : ℕ → h.napi.Value
    pub args : Args 3 info e argv
    pub target : Points (argv 0) e db
    pub key : HasBytes (argv 1) e k
    pub options : Points (argv 2) e p
