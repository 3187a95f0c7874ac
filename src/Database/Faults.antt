-- ===== src/Database/Faults.antt =====
-- String arguments that are no strings, and arrays that an early return leaves behind.
use rocksdb_ts.Prelude.{ℕ, suc, ◌≡◌, refl, none, some, length, ◌+◌}
use rocksdb_ts.Host.{Host, Address, Bytes, Encoding, return_null}
use rocksdb_ts.Machine.{State, returned, fault, indeterminate, chars_cell}
use rocksdb_ts.Machine.Calls.{Args, Points, Encodes}
use rocksdb_ts.Machine.Macros.{slice_from_string_argument}
use rocksdb_ts.Machine.Strings.{
  both, with_array, slice_from_string_argument_lem, first_of_both, second_of_both,
}
use rocksdb_ts.Database.Records.{
  rocksdb_put_string, rocksdb_get_string, rocksdb_delete_string, rocksdb_delete_range_string,
}

module _ ⦃h : Host⦄ where
  -- A call with a database whose second argument is no string: its length cannot be read.
  pub record NoStringCall (n : ℕ) (enc : Encoding) (info : h.napi.Info) (e : h.napi.Env)
      : Type 0 where
    pub argv : ℕ → h.napi.Value
    pub db : Address
    pub args : Args n info e argv
    pub target : Points (argv 0) e db
    pub no_string : h.napi.string_length enc (argv 1) e ≡ none

  no_size :
      {n : ℕ} {enc : Encoding} {info : h.napi.Info} (s : State) (c : NoStringCall n enc info s.env)
      → slice_from_string_argument enc (c.argv 1) s ≡ fault indeterminate
  unfolding slice_from_string_argument
  no_size s c = rw c.no_string

  -- The string variants of put, get, delete and delete_range, called with a database and with
  -- something else than a string as the key, read the size of the string before it has a value.
  pub string_methods-no_string :
      {enc : Encoding} {info info' : h.napi.Info} (s : State)
      → NoStringCall 4 enc info s.env
      → NoStringCall 3 enc info' s.env
      → (rocksdb_put_string enc info s ≡ fault indeterminate)
        × (rocksdb_delete_range_string enc info s ≡ fault indeterminate)
        × (rocksdb_get_string enc info' s ≡ fault indeterminate)
        × (rocksdb_delete_string enc info' s ≡ fault indeterminate)
  unfolding rocksdb_put_string rocksdb_delete_range_string rocksdb_get_string rocksdb_delete_string
  string_methods-no_string s c d = (
    rw (c.args, c.target, no_size s c),
    rw (c.args, c.target, no_size s c),
    rw (d.args, d.target, no_size s d),
    rw (d.args, d.target, no_size s d),
  )

  -- Two good strings, but no external in the place of the options.
  pub record BadOptionsCall (enc : Encoding) (info : h.napi.Info) (e : h.napi.Env) (k v : Bytes)
      : Type 0 where
    pub argv : ℕ → h.napi.Value
    pub db : Address
    pub args : Args 4 info e argv
    pub target : Points (argv 0) e db
    pub key : Encodes enc (argv 1) e k
    pub value : Encodes enc (argv 2) e v
    pub no_options : h.napi.get_value_external (argv 3) e ≡ none

  -- A string variant of put whose options argument is no external, where the macro then returns:
  -- it returns NULL after the two arrays are made, and both stay on the native heap.
  pub put_string-bad_options :
      {enc : Encoding} {info : h.napi.Info} {k v : Bytes} {e : h.napi.Env} (s : State)
      → BadOptionsCall enc info s.env k v
      → h.napi.on_bad_status s.env ≡ (return_null, e)
      → (t : State) × (rocksdb_put_string enc info s ≡ returned t)
        × (t.cells s.next ≡ some (chars_cell (length k + 1) k))
        × (t.cells (suc s.next) ≡ some (chars_cell (length v + 1) v))
        × (t.externals ≡ s.externals)
  unfolding rocksdb_put_string
  put_string-bad_options {enc} {k} {v} {e} s c macro = (
    record (both k v s) { env = e },
    rw (
      c.args,
      c.target,
      slice_from_string_argument_lem s enc c.key,
      slice_from_string_argument_lem (with_array k s) enc c.value,
      c.no_options,
      macro,
    ),
    first_of_both s k v,
    second_of_both s k v,
    refl,
  )
