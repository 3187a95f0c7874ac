-- ===== src/Iterators/Entries.antt =====
-- What an iterator stands at: its key, its value, both, and its status.
use rocksdb_ts.Prelude.{ℕ, none, some, Option}
use rocksdb_ts.Host.{Host, Address, Bytes, utf8, latin1}
use rocksdb_ts.Machine.{iterator, M, pure, ◌>>=◌, ◌>>◌, Method}
use rocksdb_ts.Machine.Effects.{expect, gets}
use rocksdb_ts.Machine.Macros.{napi_argv, from_external_argument, make, make_value, tell}

module _ ⦃h : Host⦄ where
  -- `iterator->key()` and `iterator->value()`
  unfoldable pub entry_part : (Address → h.rocks.Lib → Bytes) → Address → M Bytes
  unfolding expect
  entry_part part p = do expect iterator p; gets (λ s. part p s.lib)

  -- How bytes become a value: a buffer, or a string of an encoding.
  abbrev pub Wrap : Type 0
  Wrap = Bytes → h.napi.Env → Option (h.napi.Value × h.napi.Env)

  -- The body of the readers of one part.
  unfoldable pub read_part : (Address → h.rocks.Lib → Bytes) → Wrap → Method
  unfolding napi_argv from_external_argument make
  read_part part wrap info = do
    argv ← napi_argv 1 info
    p ← from_external_argument (argv 0)
    b ← entry_part part p
    make none (wrap b)

  unfoldable pub rocksdb_iterator_key : Method
  unfolding read_part
  rocksdb_iterator_key = read_part h.rocks.key h.napi.create_buffer_copy

  unfoldable pub rocksdb_iterator_key_utf8 : Method
  unfolding read_part
  rocksdb_iterator_key_utf8 = read_part h.rocks.key (h.napi.create_string utf8)

  unfoldable pub rocksdb_iterator_key_latin1 : Method
  unfolding read_part
  rocksdb_iterator_key_latin1 = read_part h.rocks.key (h.napi.create_string latin1)

  unfoldable pub rocksdb_iterator_value : Method
  unfolding read_part
  rocksdb_iterator_value = read_part h.rocks.value h.napi.create_buffer_copy

  unfoldable pub rocksdb_iterator_value_utf8 : Method
  unfolding read_part
  rocksdb_iterator_value_utf8 = read_part h.rocks.value (h.napi.create_string utf8)

  unfoldable pub rocksdb_iterator_value_latin1 : Method
  unfolding read_part
  rocksdb_iterator_value_latin1 = read_part h.rocks.value (h.napi.create_string latin1)

  -- The body of the readers of both parts, which make an array of length 2.
  unfoldable pub read_pair : Wrap → Method
  unfolding napi_argv from_external_argument make_value tell
  read_pair wrap info = do
    argv ← napi_argv 1 info
    p ← from_external_argument (argv 0)
    k ← entry_part h.rocks.key p
    v ← entry_part h.rocks.value p
    k_r ← make_value (wrap k)
    v_r ← make_value (wrap v)
    result ← make_value (h.napi.create_array_with_length 2)
    tell (h.napi.set_element result 0 k_r)
    tell (h.napi.set_element result 1 v_r)
    pure (some result)

  unfoldable pub rocksdb_iterator_key_value_pair : Method
  unfolding read_pair
  rocksdb_iterator_key_value_pair = read_pair h.napi.create_buffer_copy

  unfoldable pub rocksdb_iterator_key_value_pair_of_utf8 : Method
  unfolding read_pair
  rocksdb_iterator_key_value_pair_of_utf8 = read_pair (h.napi.create_string utf8)

  -- The body of the readers of the status.
  unfoldable pub read_status : (h.rocks.Status → ℕ) → Method
  unfolding napi_argv from_external_argument expect make
  read_status part info = do
    argv ← napi_argv 1 info
    p ← from_external_argument (argv 0)
    expect iterator p
    status ← gets (λ s. h.rocks.iterator_status p s.lib)
    make none (h.napi.create_int32 (part status))

  unfoldable pub rocksdb_iterator_status_code : Method
  unfolding read_status
  rocksdb_iterator_status_code = read_status h.rocks.code

  unfoldable pub rocksdb_iterator_status_subcode : Method
  unfolding read_status
  rocksdb_iterator_status_subcode = read_status h.rocks.subcode
