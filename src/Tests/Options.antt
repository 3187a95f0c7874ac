-- ===== src/Tests/Options.antt =====
-- The theorems on option structs at the small process of `Tests`.
use rocksdb_ts.Prelude.{ℕ, ◌≡◌, refl, true, List, [], ◌∷◌, length, none, some}
use rocksdb_ts.Machine.{State, ok, returned, native, options}
use rocksdb_ts.Host.{Bytes, Finalizer}
use rocksdb_ts.Machine.Macros.{make}
use rocksdb_ts.Machine.Calls.{FlagCall, BigintCall, PairCall, ObjectCall}
use rocksdb_ts.Options.Write.Fields as Write
use rocksdb_ts.Options.Read.Fields as Read
use rocksdb_ts.Options.Read.Bigints as Bigints
use rocksdb_ts.Options.Read.Pointers as Pointers
use rocksdb_ts.Options.Db.{rocksdb_options_init_from_buffer}
use rocksdb_ts.Options.Parse.{TextCall, parse_success, parse_failure}
use rocksdb_ts.Demo.{throw, demo, argument, Value, write_defaults, read_defaults}
use rocksdb_ts.Tests.{quiet, opened}

object_call : (n p : ℕ) → ObjectCall ⦃h = demo⦄ n (Value.outside p ∷ []) quiet p
object_call n p = record { argv = argument (Value.outside p ∷ []); args = refl; target = refl }

abbrev flag_info : ℕ → List Value
flag_info p = Value.outside p ∷ Value.boolean true ∷ []

flag_call : (p : ℕ) → FlagCall (flag_info p) quiet p true
flag_call p = record { argv = argument (flag_info p); args = refl; target = refl; value = refl }

write_getter-setter_example :
    (Write.setter Write.WriteFlag.sync (flag_info 3) opened
      ≡ ok none (Write.after_set Write.WriteFlag.sync 3 true write_defaults opened))
    × (Write.getter Write.WriteFlag.sync
          (Value.outside 3 ∷ [])
          (Write.after_set Write.WriteFlag.sync 3 true write_defaults opened)
        ≡ make none
            (demo.napi.get_boolean true)
            (Write.after_set Write.WriteFlag.sync 3 true write_defaults opened))
write_getter-setter_example =
    Write.write_getter-setter opened Write.WriteFlag.sync Write.WriteFlag.sync refl (flag_call 3)
      (object_call 1 3)

read_getter-setter_example :
    (Read.setter Read.ReadFlag.tailing (flag_info 4) opened
      ≡ ok none (Read.after_set Read.ReadFlag.tailing 4 true read_defaults opened))
    × (Read.getter Read.ReadFlag.fill_cache
          (Value.outside 4 ∷ [])
          (Read.after_set Read.ReadFlag.tailing 4 true read_defaults opened)
        ≡ make none
            (demo.napi.get_boolean true)
            (Read.after_set Read.ReadFlag.tailing 4 true read_defaults opened))
read_getter-setter_example =
    Read.read_getter-setter opened Read.ReadFlag.tailing Read.ReadFlag.fill_cache refl (flag_call 4)
      (object_call 1 4)

abbrev bigint_info : List Value
bigint_info = Value.outside 4 ∷ Value.bigint 9 ∷ []

bigint_call : BigintCall bigint_info quiet 4 9
bigint_call = record {
  argv = argument bigint_info;
  args = refl;
  target = refl;
  lossless = true;
  value = refl;
}

bigint_getter-setter_example :
    (Bigints.setter Bigints.NumberField.readahead_size bigint_info opened
      ≡ ok none (Bigints.after_set Bigints.NumberField.readahead_size 4 9 read_defaults opened))
    × (Bigints.getter Bigints.NumberField.readahead_size
          (Value.outside 4 ∷ [])
          (Bigints.after_set Bigints.NumberField.readahead_size 4 9 read_defaults opened)
        ≡ make none
            (demo.napi.create_bigint_uint64 9)
            (Bigints.after_set Bigints.NumberField.readahead_size 4 9 read_defaults opened))
bigint_getter-setter_example =
    Bigints.bigint_getter-setter opened Bigints.NumberField.readahead_size
      Bigints.NumberField.readahead_size refl bigint_call (object_call 1 4)

abbrev pair_info : List Value
pair_info = Value.outside 4 ∷ Value.outside 6 ∷ []

pair_call : PairCall pair_info quiet 4 6
pair_call = record { argv = argument pair_info; args = refl; target = refl; value = refl }

resetter-setter_example :
    (t : State) × (Pointers.setter Pointers.PointerField.iterate_lower_bound pair_info opened
      ≡ ok none t)
    × (Pointers.resetter Pointers.PointerField.iterate_lower_bound (Value.outside 4 ∷ []) t
        ≡ ok none (
            Pointers.after_point Pointers.PointerField.iterate_lower_bound 4 0 read_defaults
              opened))
resetter-setter_example =
    Pointers.resetter-setter opened Pointers.PointerField.iterate_lower_bound refl pair_call
      (object_call _ 4) (Value.undefined, refl)

-- The small library parses every text but the empty one.
text_call : (text : Bytes) → TextCall (Value.buffer text ∷ []) quiet text
text_call text = record {
  argv = argument (Value.buffer text ∷ []);
  start = text;
  size = length text;
  args = refl;
  buffer = refl;
  content = refl;
}

parse_success_example :
    (t : State) × (rocksdb_options_init_from_buffer (Value.buffer (97 ∷ []) ∷ []) opened
      ≡ ok (some (Value.outside 7)) t)
    × (t.cells 7 ≡ some (native options))
    × (t.lib ≡ opened.lib)
    × (t.externals
        ≡ record {
          value = Value.outside 7;
          payload = 7;
          finalizer = Finalizer.rocksdb_options_finalize;
          hint = 0;
        }
          ∷ [])
parse_success_example = parse_success opened (text_call (97 ∷ [])) refl refl

parse_failure_example :
    (t : State) × (rocksdb_options_init_from_buffer (Value.buffer [] ∷ []) opened ≡ returned t)
    × (t.env ≡ throw (102 ∷ []) quiet)
    × (t.cells 7 ≡ some (native options))
    × (t.externals ≡ [])
parse_failure_example = parse_failure opened (text_call []) refl refl refl
