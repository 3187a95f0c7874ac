-- ===== src/Tests/Database.antt =====
-- The theorems on databases at the small process of `Tests`.
use rocksdb_ts.Prelude.{ℕ, ◌≡◌, refl, none, some, List, [], ◌∷◌, arith, update, length}
use rocksdb_ts.Host.{Bytes, utf8, Finalizer}
use rocksdb_ts.Machine.{
  State, ok, returned, fault, indeterminate, native, reference_container, database, chars_cell,
}
use rocksdb_ts.Machine.Effects.{memory}
use rocksdb_ts.Machine.Strings.{with_array}
use rocksdb_ts.Database.{rocksdb_open, rocksdb_finalize}
use rocksdb_ts.Database.Records.{
  rocksdb_put_string, rocksdb_get_string, rocksdb_delete_string, rocksdb_delete_range_string,
}
use rocksdb_ts.Database.Store.{read_result, get_string-branches}
use rocksdb_ts.Database.Faults.{
  NoStringCall, BadOptionsCall, string_methods-no_string, put_string-bad_options,
}
use rocksdb_ts.Database.Open.{OpenCall, open_success, open_failure}
use rocksdb_ts.Database.Finalize.{finalize_frees}
use rocksdb_ts.Demo.{demo, argument, with_key, Value, read_defaults, throw}
use rocksdb_ts.Tests.{quiet, opened, readable, key_text, value_text, encoded, get_info, get_call}

get_string-branches_example : rocksdb_get_string utf8 get_info opened ≡ (
    let r =
      demo.rocks.get (memory (with_array key_text opened)) 1 read_defaults key_text opened.lib in
    read_result (demo.napi.create_string utf8) r.0.0 r.0.1 (record opened { lib = r.1; next = 8 }))
get_string-branches_example = get_string-branches opened readable (get_call utf8)

-- A database that holds a second key.
abbrev other_text : Bytes
other_text = 109 ∷ []

abbrev stocked : State
stocked = record opened {
  lib = record { store = with_key (λ k. none) other_text (some value_text); batches = λ p. [] };
}

abbrev other_info : List Value
other_info = Value.outside 1 ∷ Value.text other_text ∷ Value.outside 4 ∷ []

-- `db.put(1n, 2n, options)` and `db.get(1n, options)`
no_string : (n : ℕ) → NoStringCall ⦃h = demo⦄ n utf8 (Value.outside 1 ∷ []) quiet
no_string n = record {
  argv = argument (Value.outside 1 ∷ []);
  db = 1;
  args = refl;
  target = refl;
  no_string = refl;
}

string_methods-no_string_example :
    (rocksdb_put_string utf8 (Value.outside 1 ∷ []) opened ≡ fault indeterminate)
    × (rocksdb_delete_range_string utf8 (Value.outside 1 ∷ []) opened ≡ fault indeterminate)
    × (rocksdb_get_string utf8 (Value.outside 1 ∷ []) opened ≡ fault indeterminate)
    × (rocksdb_delete_string utf8 (Value.outside 1 ∷ []) opened ≡ fault indeterminate)
string_methods-no_string_example = string_methods-no_string opened (no_string 4) (no_string 3)

-- The options are missing.
abbrev short_info : List Value
short_info = Value.outside 1 ∷ Value.text key_text ∷ Value.text value_text ∷ []

short_call : BadOptionsCall utf8 short_info quiet key_text value_text
short_call = record {
  argv = argument short_info;
  db = 1;
  args = refl;
  target = refl;
  key = encoded utf8 107 quiet;
  value = encoded utf8 118 quiet;
  no_options = refl;
}

put_string-bad_options_example :
    (t : State) × (rocksdb_put_string utf8 short_info opened ≡ returned t)
    × (t.cells 7 ≡ some (chars_cell 2 key_text))
    × (t.cells 8 ≡ some (chars_cell 2 value_text))
    × (t.externals ≡ [])
put_string-bad_options_example = put_string-bad_options opened short_call refl

-- The small library opens every path but the empty one.
abbrev open_info : Bytes → List Value
open_info path = Value.buffer path ∷ Value.outside 5 ∷ []

open_call : (path : Bytes) → OpenCall (open_info path) opened path 5
open_call path = record {
  argv = argument (open_info path);
  start = path;
  size = length path;
  args = refl;
  buffer = refl;
  location = refl;
  target = refl;
  live = refl;
}

open_success_example :
    (t : State) × (rocksdb_open (open_info key_text) opened ≡ ok (some (Value.outside 7)) t)
    × (t.cells 7 ≡ some (native database))
    × (t.cells 8 ≡ some (reference_container (some (Value.outside 7))))
    × (t.externals
        ≡ record {
          value = Value.outside 7;
          payload = 7;
          finalizer = Finalizer.rocksdb_finalize;
          hint = 8;
        }
          ∷ [])
    × (t.references ≡ (8, Value.outside 7) ∷ opened.references)
open_success_example = open_success opened (open_call key_text) refl refl refl refl

open_failure_example :
    (t : State) × (rocksdb_open (open_info []) opened ≡ returned t)
    × (t.env ≡ throw (102 ∷ []) quiet)
    × (t.cells 7 ≡ some (reference_container none))
    × (t.externals ≡ [])
open_failure_example = open_failure opened (open_call []) refl refl refl refl

finalize_frees_example :
    (t : State) × (rocksdb_finalize 1 2 opened ≡ ok tt t)
    × (t.cells ≡ update (update opened.cells 2 none) 1 none)
    × (t.lib ≡ opened.lib)
finalize_frees_example = finalize_frees opened 1 2 (λ e. omega arith) (λ e. omega arith) refl refl

-- `db.put(Buffer "k", Buffer "v", options)` and `db.get(Buffer "k", options)`
abbrev buffer_put_info : List Value
buffer_put_info =
    Value.outside 1 ∷ Value.buffer key_text ∷ Value.buffer value_text ∷ Value.outside 3 ∷ []

abbrev buffer_get_info : List Value
buffer_get_info = Value.outside 1 ∷ Value.buffer key_text ∷ Value.outside 4 ∷ []
