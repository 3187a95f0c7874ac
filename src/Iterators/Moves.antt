-- ===== src/Iterators/Moves.antt =====
-- The moves of an iterator, each of which answers whether the iterator is valid after it.
use rocksdb_ts.Prelude.{none, Option}
use rocksdb_ts.Host.{Host, Address, Bytes, Memory, Encoding, utf8, latin1}
use rocksdb_ts.Machine.{iterator, Slice, M, ◌>>=◌, ◌>>◌, Method}
use rocksdb_ts.Machine.Effects.{expect, read_slice, library, library_do, gets}
use rocksdb_ts.Machine.Macros.{
  napi_argv, from_external_argument, slice_from_buffer_argument, slice_from_string_argument,
  slice_from_string_argument_release, make, rocksdb_status_throws,
}

module _ ⦃h : Host⦄ where
  -- A move of the library.
  abbrev pub Move : Type 0
  Move = Memory → Address → h.rocks.Lib → h.rocks.Lib

  -- `iterator->Valid()` as the value to be returned.
  unfoldable pub return_valid : Address → M (Option h.napi.Value)
  unfolding expect make
  return_valid p = do
    expect iterator p
    valid ← gets (λ s. h.rocks.valid p s.lib)
    make none (h.napi.get_boolean valid)

  unfoldable pub move : Move → Address → M (Unit {0})
  unfolding expect library_do
  move f p = expect iterator p >> library_do (λ m. f m p)

  -- A move to a key.
  unfoldable pub move_to :
      (Memory → Address → Bytes → h.rocks.Lib → h.rocks.Lib) → Address → Slice → M (Unit {0})
  move_to f p x = do key ← read_slice x; move (λ m q. f m q key) p

  -- The body that the moves with no key share.
  unfoldable pub moved : Move → Method
  unfolding napi_argv from_external_argument
  moved f info = do
    argv ← napi_argv 1 info
    p ← from_external_argument (argv 0)
    move f p
    return_valid p

  unfoldable pub moved_to_buffer : (Memory → Address → Bytes → h.rocks.Lib → h.rocks.Lib) → Method
  unfolding napi_argv from_external_argument
  moved_to_buffer f info = do
    argv ← napi_argv 2 info
    p ← from_external_argument (argv 0)
    key ← slice_from_buffer_argument (argv 1)
    move_to f p key
    return_valid p

  unfoldable pub moved_to_string :
      (Memory → Address → Bytes → h.rocks.Lib → h.rocks.Lib) → Encoding → Method
  unfolding napi_argv from_external_argument
  moved_to_string f enc info = do
    argv ← napi_argv 2 info
    p ← from_external_argument (argv 0)
    key ← slice_from_string_argument enc (argv 1)
    move_to f p key
    slice_from_string_argument_release key
    return_valid p

  unfoldable pub rocksdb_iterator_seek : Method
  unfolding moved_to_buffer
  rocksdb_iterator_seek = moved_to_buffer h.rocks.seek

  unfoldable pub rocksdb_iterator_seek_utf8 : Method
  unfolding moved_to_string
  rocksdb_iterator_seek_utf8 = moved_to_string h.rocks.seek utf8

  unfoldable pub rocksdb_iterator_seek_latin1 : Method
  unfolding moved_to_string
  rocksdb_iterator_seek_latin1 = moved_to_string h.rocks.seek latin1

  unfoldable pub rocksdb_iterator_seek_for_prev : Method
  unfolding moved_to_buffer
  rocksdb_iterator_seek_for_prev = moved_to_buffer h.rocks.seek_for_prev

  unfoldable pub rocksdb_iterator_seek_for_prev_utf8 : Method
  unfolding moved_to_string
  rocksdb_iterator_seek_for_prev_utf8 = moved_to_string h.rocks.seek_for_prev utf8

  unfoldable pub rocksdb_iterator_seek_for_prev_latin1 : Method
  unfolding moved_to_string
  rocksdb_iterator_seek_for_prev_latin1 = moved_to_string h.rocks.seek_for_prev latin1

  unfoldable pub rocksdb_iterator_seek_for_first : Method
  unfolding moved
  rocksdb_iterator_seek_for_first = moved h.rocks.seek_to_first

  unfoldable pub rocksdb_iterator_seek_for_last : Method
  unfolding moved
  rocksdb_iterator_seek_for_last = moved h.rocks.seek_to_last

  unfoldable pub rocksdb_iterator_reset : Method
  unfolding moved
  rocksdb_iterator_reset = moved (λ m. h.rocks.reset)

  unfoldable pub rocksdb_iterator_valid : Method
  unfolding napi_argv from_external_argument
  rocksdb_iterator_valid info = do
    argv ← napi_argv 1 info
    p ← from_external_argument (argv 0)
    return_valid p

  -- A failed refresh raises an exception, and the method goes on.
  unfoldable pub rocksdb_iterator_refresh : Method
  unfolding napi_argv from_external_argument expect library
  rocksdb_iterator_refresh info = do
    argv ← napi_argv 1 info
    p ← from_external_argument (argv 0)
    expect iterator p
    status ← library (λ m. h.rocks.refresh m p)
    rocksdb_status_throws status
    return_valid p

  unfoldable pub rocksdb_iterator_next : Method
  unfolding moved
  rocksdb_iterator_next = moved h.rocks.next

  unfoldable pub rocksdb_iterator_prev : Method
  unfolding moved
  rocksdb_iterator_prev = moved h.rocks.prev
