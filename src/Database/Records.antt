-- ===== src/Database/Records.antt =====
-- Reading, writing and deleting records: rocksdb_put*, rocksdb_get*, rocksdb_delete* of binding.cc,
-- with keys and values in buffers or in strings of either encoding.
use rocksdb_ts.Prelude.{Option, none, some, if◌then◌else◌}
use rocksdb_ts.Host.{Host, Address, Bytes, Encoding, utf8, latin1}
use rocksdb_ts.Machine.{database, Slice, M, pure, ◌>>=◌, ◌>>◌, Method}
use rocksdb_ts.Machine.Effects.{expect, load_write_options, load_read_options, read_slice, library}
use rocksdb_ts.Machine.Macros.{
  napi_argv, from_external_argument, slice_from_buffer_argument, slice_from_string_argument,
  slice_from_string_argument_release, make, rocksdb_status_throws, return_undefined,
}

module _ ⦃h : Host⦄ where
  -- `db->Put(*options, k, v)`
  unfoldable pub db_put : Address → Address → Slice → Slice → M h.rocks.Status
  unfolding expect load_write_options library
  db_put db options k v = do
    expect database db
    o ← load_write_options options
    key ← read_slice k
    value ← read_slice v
    library (λ m. h.rocks.put m db o key value)

  -- `db->Delete(*options, k)`
  unfoldable pub db_delete : Address → Address → Slice → M h.rocks.Status
  unfolding expect load_write_options library
  db_delete db options k = do
    expect database db
    o ← load_write_options options
    key ← read_slice k
    library (λ m. h.rocks.delete m db o key)

  -- `db->DeleteRange(*options, db->DefaultColumnFamily(), from, till)`
  unfoldable pub db_delete_range : Address → Address → Slice → Slice → M h.rocks.Status
  unfolding expect load_write_options library
  db_delete_range db options from till = do
    expect database db
    o ← load_write_options options
    first ← read_slice from
    last ← read_slice till
    library (λ m. h.rocks.delete_range m db o first last)

  -- `db->Get(*options, db->DefaultColumnFamily(), k, &v)`
  unfoldable pub db_get : Address → Address → Slice → M (h.rocks.Status × Bytes)
  unfolding expect load_read_options library
  db_get db options k = do
    expect database db
    o ← load_read_options options
    key ← read_slice k
    library (λ m. h.rocks.get m db o key)

  -- The end of the three readers: the value, `undefined`, or an exception and NULL.
  unfoldable pub value_or_throw :
      (Bytes → h.napi.Env → Option (h.napi.Value × h.napi.Env))
      → h.rocks.Status × Bytes
      → M (Option h.napi.Value)
  unfolding make
  value_or_throw wrap (status, v) =
      if h.rocks.ok? status
      then make (some none) (wrap v)
      else if h.rocks.is_not_found status
      then make (some none) h.napi.get_undefined
      else (rocksdb_status_throws status >> pure none)

  unfoldable pub rocksdb_put : Method
  unfolding napi_argv from_external_argument
  rocksdb_put info = do
    argv ← napi_argv 4 info
    db ← from_external_argument (argv 0)
    k ← slice_from_buffer_argument (argv 1)
    v ← slice_from_buffer_argument (argv 2)
    options ← from_external_argument (argv 3)
    status ← db_put db options k v
    rocksdb_status_throws status
    return_undefined

  -- The body that the two string variants share, whose text differs in the encoding alone.
  unfoldable pub rocksdb_put_string : Encoding → Method
  unfolding napi_argv from_external_argument
  rocksdb_put_string enc info = do
    argv ← napi_argv 4 info
    db ← from_external_argument (argv 0)
    k ← slice_from_string_argument enc (argv 1)
    v ← slice_from_string_argument enc (argv 2)
    options ← from_external_argument (argv 3)
    status ← db_put db options k v
    slice_from_string_argument_release k
    slice_from_string_argument_release v
    rocksdb_status_throws status
    return_undefined

  unfoldable pub rocksdb_put_utf8 : Method
  unfolding rocksdb_put_string
  rocksdb_put_utf8 = rocksdb_put_string utf8

  unfoldable pub rocksdb_put_latin1 : Method
  unfolding rocksdb_put_string
  rocksdb_put_latin1 = rocksdb_put_string latin1

  unfoldable pub rocksdb_get : Method
  unfolding napi_argv from_external_argument
  rocksdb_get info = do
    argv ← napi_argv 3 info
    db ← from_external_argument (argv 0)
    k ← slice_from_buffer_argument (argv 1)
    options ← from_external_argument (argv 2)
    r ← db_get db options k
    value_or_throw h.napi.create_buffer_copy r

  -- The body that the two string variants share, whose text differs in the encoding alone.
  unfoldable pub rocksdb_get_string : Encoding → Method
  unfolding napi_argv from_external_argument
  rocksdb_get_string enc info = do
    argv ← napi_argv 3 info
    db ← from_external_argument (argv 0)
    k ← slice_from_string_argument enc (argv 1)
    options ← from_external_argument (argv 2)
    r ← db_get db options k
    slice_from_string_argument_release k
    value_or_throw (h.napi.create_string enc) r

  unfoldable pub rocksdb_get_utf8 : Method
  unfolding rocksdb_get_string
  rocksdb_get_utf8 = rocksdb_get_string utf8

  unfoldable pub rocksdb_get_latin1 : Method
  unfolding rocksdb_get_string
  rocksdb_get_latin1 = rocksdb_get_string latin1

  unfoldable pub rocksdb_delete : Method
  unfolding napi_argv from_external_argument
  rocksdb_delete info = do
    argv ← napi_argv 3 info
    db ← from_external_argument (argv 0)
    k ← slice_from_buffer_argument (argv 1)
    options ← from_external_argument (argv 2)
    status ← db_delete db options k
    rocksdb_status_throws status
    return_undefined

  -- The body that the two string variants share, whose text differs in the encoding alone.
  unfoldable pub rocksdb_delete_string : Encoding → Method
  unfolding napi_argv from_external_argument
  rocksdb_delete_string enc info = do
    argv ← napi_argv 3 info
    db ← from_external_argument (argv 0)
    k ← slice_from_string_argument enc (argv 1)
    options ← from_external_argument (argv 2)
    status ← db_delete db options k
    slice_from_string_argument_release k
    rocksdb_status_throws status
    return_undefined

  unfoldable pub rocksdb_delete_utf8 : Method
  unfolding rocksdb_delete_string
  rocksdb_delete_utf8 = rocksdb_delete_string utf8

  unfoldable pub rocksdb_delete_latin1 : Method
  unfolding rocksdb_delete_string
  rocksdb_delete_latin1 = rocksdb_delete_string latin1

  unfoldable pub rocksdb_delete_range : Method
  unfolding napi_argv from_external_argument
  rocksdb_delete_range info = do
    argv ← napi_argv 4 info
    db ← from_external_argument (argv 0)
    from ← slice_from_buffer_argument (argv 1)
    till ← slice_from_buffer_argument (argv 2)
    options ← from_external_argument (argv 3)
    status ← db_delete_range db options from till
    rocksdb_status_throws status
    return_undefined

  -- The body that the two string variants share, whose text differs in the encoding alone.
  unfoldable pub rocksdb_delete_range_string : Encoding → Method
  unfolding napi_argv from_external_argument
  rocksdb_delete_range_string enc info = do
    argv ← napi_argv 4 info
    db ← from_external_argument (argv 0)
    from ← slice_from_string_argument enc (argv 1)
    till ← slice_from_string_argument enc (argv 2)
    options ← from_external_argument (argv 3)
    status ← db_delete_range db options from till
    slice_from_string_argument_release from
    slice_from_string_argument_release till
    rocksdb_status_throws status
    return_undefined

  unfoldable pub rocksdb_delete_range_utf8 : Method
  unfolding rocksdb_delete_range_string
  rocksdb_delete_range_utf8 = rocksdb_delete_range_string utf8

  unfoldable pub rocksdb_delete_range_latin1 : Method
  unfolding rocksdb_delete_range_string
  rocksdb_delete_range_latin1 = rocksdb_delete_range_string latin1
