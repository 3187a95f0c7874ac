-- ===== src/Database/Store.antt =====
-- A database as a map from keys to values: what a client of the exported methods sees of it, given
-- what db.h documents of Put, Get and Delete.
use rocksdb_ts.Prelude.{if◌then◌else◌, suc, ◌≡◌, ◌≢◌, true, false, Option, none, some, arith, ◌∙◌}
use rocksdb_ts.Host.{Host, Address, Bytes, Encoding, WriteOptions, ReadOptions, Memory}
use rocksdb_ts.Machine.{State, ok, M}
use rocksdb_ts.Machine.Effects.{memory}
use rocksdb_ts.Machine.Macros.{make, c_str, rocksdb_status_throws}
use rocksdb_ts.Machine.Strings.{with_array}
use rocksdb_ts.Database.Records.{value_or_throw, rocksdb_get_string}
use rocksdb_ts.Database.Strings.{CanRead, KeyCall, rocksdb_get_string_lem}

-- What db.h says of a database that is open at an address, read with default options: `contents`
-- is what the latest state of the database maps a key to.
pub record IsStore ⦃h : Host⦄ : Type 0 where
  pub contents : h.rocks.Lib → Address → Bytes → Option Bytes
  pub put_self :
      (m : Memory) (db : Address) (o : WriteOptions) (k v : Bytes) (l : h.rocks.Lib)
      → h.rocks.ok? (h.rocks.put m db o k v l).0 ≡ true
      → contents (h.rocks.put m db o k v l).1 db k ≡ some v
  pub put_other :
      (m : Memory) (db : Address) (o : WriteOptions) (k v : Bytes) (l : h.rocks.Lib) (j : Bytes)
      → j ≢ k
      → contents (h.rocks.put m db o k v l).1 db j ≡ contents l db j
  pub delete_self :
      (m : Memory) (db : Address) (o : WriteOptions) (k : Bytes) (l : h.rocks.Lib)
      → h.rocks.ok? (h.rocks.delete m db o k l).0 ≡ true
      → contents (h.rocks.delete m db o k l).1 db k ≡ none
  pub delete_other :
      (m : Memory) (db : Address) (o : WriteOptions) (k : Bytes) (l : h.rocks.Lib) (j : Bytes)
      → j ≢ k
      → contents (h.rocks.delete m db o k l).1 db j ≡ contents l db j
  pub get_some :
      (m : Memory) (db : Address) (k v : Bytes) (l : h.rocks.Lib)
      → contents l db k ≡ some v
      → (h.rocks.ok? (h.rocks.get m db h.rocks.default_read_options k l).0.0 ≡ true)
        × ((h.rocks.get m db h.rocks.default_read_options k l).0.1 ≡ v)
  pub get_none :
      (m : Memory) (db : Address) (k : Bytes) (l : h.rocks.Lib)
      → contents l db k ≡ none
      → (h.rocks.ok? (h.rocks.get m db h.rocks.default_read_options k l).0.0 ≡ false)
        × (h.rocks.is_not_found (h.rocks.get m db h.rocks.default_read_options k l).0.0 ≡ true)

module _ ⦃h : Host⦄ where
  -- What a reader does with the status and the bytes that the library gives.
  abbrev pub read_result :
      (Bytes → h.napi.Env → Option (h.napi.Value × h.napi.Env))
      → h.rocks.Status
      → Bytes
      → M (Option h.napi.Value)
  read_result wrap st v s =
      if h.rocks.ok? st
      then make (some none) (wrap v) s
      else if h.rocks.is_not_found st
      then make (some none) h.napi.get_undefined s
      else ok none (record s { env = h.napi.throw_error (c_str (h.rocks.to_string st)) s.env })

  pub value_or_throw_lem :
      (wrap : Bytes → h.napi.Env → Option (h.napi.Value × h.napi.Env)) (r : h.rocks.Status × Bytes)
      (s : State)
      → value_or_throw wrap r s ≡ read_result wrap r.0 r.1 s
  unfolding value_or_throw rocksdb_status_throws
  value_or_throw_lem wrap r s = ground arith

  -- A string reader with good arguments makes a string of the bytes found if the status is OK,
  -- `undefined` if it is NotFound, and otherwise raises the status as an exception and returns NULL.
  -- On every one of these branches the native heap is as it was before the call.
  pub get_string-branches :
      {enc : Encoding} {info : h.napi.Info} {k : Bytes} {db p : Address} {o : ReadOptions}
      (s : State)
      → CanRead s db p o
      → KeyCall enc info s.env db p k
      → rocksdb_get_string enc info s ≡ (
          let r = h.rocks.get (memory (with_array k s)) db o k s.lib in
          read_result
            (h.napi.create_string enc)
            r.0.0
            r.0.1
            (record s { lib = r.1; next = suc s.next }))
  get_string-branches s w c = rocksdb_get_string_lem s w c ∙ value_or_throw_lem _ _ _
