-- ===== src/Database/Strings.antt =====
-- Records whose keys and values are strings: what a call does, and that it leaves no array behind.
use rocksdb_ts.Prelude.{ℕ, suc, ◌<◌, ◌≡◌, true, none, some, if◌then◌else◌, arith, ap, ◌∙◌}
use rocksdb_ts.Host.{Host, Address, Bytes, Encoding, WriteOptions, ReadOptions}
use rocksdb_ts.Machine.{database, write_options_cell, read_options_cell, Slice, State, ok}
use rocksdb_ts.Machine.Calls.{Args, Points, Encodes}
use rocksdb_ts.Machine.Effects.{is_native, memory, read_slice}
use rocksdb_ts.Machine.Macros.{c_str, rocksdb_status_throws}
use rocksdb_ts.Machine.Strings.{
  with_array, both, HasRoom, old_cell, old_cell_both, first_of_both, second_of_both, only_array,
  slice_from_string_argument_lem, read_array, release_both, release_one,
}
use rocksdb_ts.Database.Records.{
  db_put, db_get, db_delete, db_delete_range, value_or_throw, rocksdb_put_string,
  rocksdb_get_string, rocksdb_delete_string, rocksdb_delete_range_string,
}

module _ ⦃h : Host⦄ where
  -- The engine after ROCKSDB_STATUS_THROWS.
  abbrev pub thrown : h.rocks.Status → h.napi.Env → h.napi.Env
  thrown st e = if h.rocks.ok? st then e else h.napi.throw_error (c_str (h.rocks.to_string st)) e

  -- A live database, and live write options below the unused addresses.
  pub record CanWrite (s : State) (db p : Address) (o : WriteOptions) : Type 0 where
    pub room : HasRoom s
    pub db_live : is_native database (s.cells db) ≡ true
    pub db_old : db < s.next
    pub options_live : s.cells p ≡ some (write_options_cell o)
    pub options_old : p < s.next

  -- Live read options in place of the write options.
  pub record CanRead (s : State) (db p : Address) (o : ReadOptions) : Type 0 where
    pub room : HasRoom s
    pub db_live : is_native database (s.cells db) ≡ true
    pub db_old : db < s.next
    pub options_live : s.cells p ≡ some (read_options_cell o)
    pub options_old : p < s.next

  -- A call with a database, two strings and options.
  pub record PutCall (enc : Encoding) (info : h.napi.Info) (e : h.napi.Env) (db p : Address)
      (k v : Bytes) : Type 0 where
    pub argv : ℕ → h.napi.Value
    pub args : Args 4 info e argv
    pub target : Points (argv 0) e db
    pub key : Encodes enc (argv 1) e k
    pub value : Encodes enc (argv 2) e v
    pub options : Points (argv 3) e p

  -- A call with a database, one string and options.
  pub record KeyCall (enc : Encoding) (info : h.napi.Info) (e : h.napi.Env) (db p : Address)
      (k : Bytes) : Type 0 where
    pub argv : ℕ → h.napi.Value
    pub args : Args 3 info e argv
    pub target : Points (argv 0) e db
    pub key : Encodes enc (argv 1) e k
    pub options : Points (argv 2) e p

  pub rocksdb_status_throws_lem :
      (st : h.rocks.Status) (s : State)
      → rocksdb_status_throws st s ≡ ok tt (record s { env = thrown st s.env })
  unfolding rocksdb_status_throws
  rocksdb_status_throws_lem st s = ground arith

  pub db_put_lem :
      (s : State) {db p : Address} {o : WriteOptions} (k v : Slice) {kb vb : Bytes}
      → is_native database (s.cells db) ≡ true
      → s.cells p ≡ some (write_options_cell o)
      → read_slice k s ≡ ok kb s
      → read_slice v s ≡ ok vb s
      → db_put db p k v s
        ≡ (let r = h.rocks.put (memory s) db o kb vb s.lib in ok r.0 (record s { lib = r.1 }))
  unfolding db_put
  db_put_lem s k v db_live options_live rk rv = rw (db_live, options_live, rk, rv)

  db_delete_range_lem :
      (s : State) {db p : Address} {o : WriteOptions} (k v : Slice) {kb vb : Bytes}
      → is_native database (s.cells db) ≡ true
      → s.cells p ≡ some (write_options_cell o)
      → read_slice k s ≡ ok kb s
      → read_slice v s ≡ ok vb s
      → db_delete_range db p k v s ≡ (
          let r = h.rocks.delete_range (memory s) db o kb vb s.lib in
          ok r.0 (record s { lib = r.1 }))
  unfolding db_delete_range
  db_delete_range_lem s k v db_live options_live rk rv = rw (db_live, options_live, rk, rv)

  db_delete_lem :
      (s : State) {db p : Address} {o : WriteOptions} (k : Slice) {kb : Bytes}
      → is_native database (s.cells db) ≡ true
      → s.cells p ≡ some (write_options_cell o)
      → read_slice k s ≡ ok kb s
      → db_delete db p k s
        ≡ (let r = h.rocks.delete (memory s) db o kb s.lib in ok r.0 (record s { lib = r.1 }))
  unfolding db_delete
  db_delete_lem s k db_live options_live rk = rw (db_live, options_live, rk)

  pub db_get_lem :
      (s : State) {db p : Address} {o : ReadOptions} (k : Slice) {kb : Bytes}
      → is_native database (s.cells db) ≡ true
      → s.cells p ≡ some (read_options_cell o)
      → read_slice k s ≡ ok kb s
      → db_get db p k s
        ≡ (let r = h.rocks.get (memory s) db o kb s.lib in ok r.0 (record s { lib = r.1 }))
  unfolding db_get
  db_get_lem s k db_live options_live rk = rw (db_live, options_live, rk)

  pub rocksdb_put_string_lem :
      {enc : Encoding} {info : h.napi.Info} {k v : Bytes} {db p : Address} {o : WriteOptions}
      (s : State)
      → CanWrite s db p o
      → PutCall enc info s.env db p k v
      → rocksdb_put_string enc info s ≡ (
          let r = h.rocks.put (memory (both k v s)) db o k v s.lib in
          ok none (record s { env = thrown r.0 s.env; lib = r.1; next = suc (suc s.next) }))
  unfolding rocksdb_put_string
  rocksdb_put_string_lem {enc} {k} {v} {db} {p} {o} s w c =
      rw
        (
          c.args,
          c.target,
          slice_from_string_argument_lem s enc c.key,
          slice_from_string_argument_lem (with_array k s) enc c.value,
          c.options,
          db_put_lem (both k v s) _ _
              (ap (is_native database) (old_cell_both s k v w.db_old) ∙ w.db_live)
              (old_cell_both s k v w.options_old ∙ w.options_live)
              (read_array (both k v s) s.next k (first_of_both s k v))
              (read_array (both k v s) (suc s.next) v (second_of_both s k v)),
          release_both s k v _ _ w.room,
        )
        (rw rocksdb_status_throws_lem)

  pub rocksdb_delete_range_string_lem :
      {enc : Encoding} {info : h.napi.Info} {k v : Bytes} {db p : Address} {o : WriteOptions}
      (s : State)
      → CanWrite s db p o
      → PutCall enc info s.env db p k v
      → rocksdb_delete_range_string enc info s ≡ (
          let r = h.rocks.delete_range (memory (both k v s)) db o k v s.lib in
          ok none (record s { env = thrown r.0 s.env; lib = r.1; next = suc (suc s.next) }))
  unfolding rocksdb_delete_range_string
  rocksdb_delete_range_string_lem {enc} {k} {v} {db} {p} {o} s w c =
      rw
        (
          c.args,
          c.target,
          slice_from_string_argument_lem s enc c.key,
          slice_from_string_argument_lem (with_array k s) enc c.value,
          c.options,
          db_delete_range_lem (both k v s) _ _
              (ap (is_native database) (old_cell_both s k v w.db_old) ∙ w.db_live)
              (old_cell_both s k v w.options_old ∙ w.options_live)
              (read_array (both k v s) s.next k (first_of_both s k v))
              (read_array (both k v s) (suc s.next) v (second_of_both s k v)),
          release_both s k v _ _ w.room,
        )
        (rw rocksdb_status_throws_lem)

  pub rocksdb_delete_string_lem :
      {enc : Encoding} {info : h.napi.Info} {k : Bytes} {db p : Address} {o : WriteOptions}
      (s : State)
      → CanWrite s db p o
      → KeyCall enc info s.env db p k
      → rocksdb_delete_string enc info s ≡ (
          let r = h.rocks.delete (memory (with_array k s)) db o k s.lib in
          ok none (record s { env = thrown r.0 s.env; lib = r.1; next = suc s.next }))
  unfolding rocksdb_delete_string
  rocksdb_delete_string_lem {enc} {k} {db} {p} {o} s w c =
      rw
        (
          c.args,
          c.target,
          slice_from_string_argument_lem s enc c.key,
          c.options,
          db_delete_lem (with_array k s) _
              (ap (is_native database) (old_cell s k w.db_old) ∙ w.db_live)
              (old_cell s k w.options_old ∙ w.options_live)
              (read_array (with_array k s) s.next k (only_array s k)),
          release_one s k _ _ w.room,
        )
        (rw rocksdb_status_throws_lem)

  pub rocksdb_get_string_lem :
      {enc : Encoding} {info : h.napi.Info} {k : Bytes} {db p : Address} {o : ReadOptions}
      (s : State)
      → CanRead s db p o
      → KeyCall enc info s.env db p k
      → rocksdb_get_string enc info s ≡ (
          let r = h.rocks.get (memory (with_array k s)) db o k s.lib in
          value_or_throw (h.napi.create_string enc) r.0 (record s { lib = r.1; next = suc s.next }))
  unfolding rocksdb_get_string
  rocksdb_get_string_lem {enc} {k} {db} {p} {o} s w c =
      rw
        (
          c.args,
          c.target,
          slice_from_string_argument_lem s enc c.key,
          c.options,
          db_get_lem (with_array k s) _
              (ap (is_native database) (old_cell s k w.db_old) ∙ w.db_live)
              (old_cell s k w.options_old ∙ w.options_live)
              (read_array (with_array k s) s.next k (only_array s k)),
        )
        (release_one s k _ _ w.room)
