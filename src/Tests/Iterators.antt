-- ===== src/Tests/Iterators.antt =====
-- The theorem on moves of iterators at the small process of `Tests`.
use rocksdb_ts.Prelude.{◌≡◌, refl, none, some, List, [], ◌∷◌, arith, update}
use rocksdb_ts.Host.{utf8}
use rocksdb_ts.Machine.{native, iterator, State}
use rocksdb_ts.Machine.Effects.{memory}
use rocksdb_ts.Machine.Macros.{make}
use rocksdb_ts.Machine.Strings.{with_array}
use rocksdb_ts.Iterators.Moves.{moved_to_buffer, moved_to_string}
use rocksdb_ts.Iterators.Strings.{StringMove, BufferMove, moved_to_string-moved_to_buffer}
use rocksdb_ts.Demo.{demo, argument, Value}
use rocksdb_ts.Tests.{quiet, opened, cells, key_text, encoded}

-- An iterator at 7.
abbrev standing : State
standing = record opened { cells = update cells 7 (some (native iterator)); next = 8 }

abbrev string_info : List Value
string_info = Value.outside 7 ∷ Value.text key_text ∷ []

abbrev buffer_info : List Value
buffer_info = Value.outside 7 ∷ Value.buffer key_text ∷ []

string_move : StringMove utf8 string_info quiet 7 key_text
string_move = record {
  argv = argument string_info;
  args = refl;
  target = refl;
  key = encoded utf8 107 quiet;
}

buffer_move : BufferMove buffer_info quiet 7 key_text
buffer_move = record {
  argv = argument buffer_info;
  args = refl;
  target = refl;
  start = key_text;
  size = 1;
  buffer = refl;
  content = refl;
}

moved_to_string-moved_to_buffer_example :
    (moved_to_string demo.rocks.seek utf8 string_info standing ≡ (
      let l = demo.rocks.seek (memory (with_array key_text standing)) 7 key_text standing.lib in
      make none
        (demo.napi.get_boolean (demo.rocks.valid 7 l))
        (record standing { lib = l; next = 9 })))
    × (moved_to_buffer demo.rocks.seek buffer_info standing ≡ (
        let l = demo.rocks.seek (memory standing) 7 key_text standing.lib in
        make none (demo.napi.get_boolean (demo.rocks.valid 7 l)) (record standing { lib = l })))
moved_to_string-moved_to_buffer_example =
    moved_to_string-moved_to_buffer demo.rocks.seek standing
      (record { unused = λ p h. ground arith }) refl (omega arith) string_move buffer_move
