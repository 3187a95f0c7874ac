-- ===== src/Options/Parse.antt =====
-- rocksdb_options_init_from_buffer where the library cannot parse the string, and where it can.
use rocksdb_ts.Prelude.{ℕ, suc, ◌≡◌, refl, true, false, none, some, ◌∷◌, arith, update}
use rocksdb_ts.Host.{Host, Bytes, Finalizer, return_null}
use rocksdb_ts.Machine.{State, ok, returned, native, options}
use rocksdb_ts.Machine.Calls.{Args}
use rocksdb_ts.Machine.Effects.{read_slice}
use rocksdb_ts.Machine.Macros.{
  c_str, slice_from_buffer_argument, rocksdb_status_throws, create_external, return_external,
}
use rocksdb_ts.Options.Db.{new_options, rocksdb_options_init_from_buffer}

module _ ⦃h : Host⦄ where
  -- A call with the bytes of a text in a buffer.
  pub record TextCall (info : h.napi.Info) (e : h.napi.Env) (text : Bytes) : Type 0 where
    pub argv : ℕ → h.napi.Value
    pub start : h.napi.Region
    pub size : ℕ
    pub args : Args 1 info e argv
    pub buffer : h.napi.get_buffer_info (argv 0) e ≡ some (start, size)
    pub content : h.napi.region_bytes start size e ≡ some text

  -- What the library makes of a text, into the new object.
  abbrev pub parsed : Bytes → State → h.rocks.Status × h.rocks.Lib
  parsed text s =
      h.rocks.db_options_from_string s.next text s.next (h.rocks.new_options s.next s.lib)

  -- The engine after a failed call has raised its status.
  abbrev pub raised : h.rocks.Status → h.napi.Env → h.napi.Env
  raised st e = h.napi.throw_error (c_str (h.rocks.to_string st)) e

  -- When the library parses the text and the engine makes the external,
  -- rocksdb_options_init_from_buffer returns it: the options are new on the native heap, and the
  -- external is registered with the finalizer that deletes them.
  pub parse_success :
      {info : h.napi.Info} {text : Bytes} {v : h.napi.Value} {e : h.napi.Env} (s : State)
      → TextCall info s.env text
      → h.rocks.ok? (parsed text s).0 ≡ true
      → h.napi.create_external s.next Finalizer.rocksdb_options_finalize 0 s.env ≡ some (v, e)
      → (t : State) × (rocksdb_options_init_from_buffer info s ≡ ok (some v) t)
        × (t.cells s.next ≡ some (native options))
        × (t.lib ≡ (parsed text s).1)
        × (t.externals
            ≡ record {
              value = v;
              payload = s.next;
              finalizer = Finalizer.rocksdb_options_finalize;
              hint = 0;
            }
              ∷ s.externals)
  unfolding rocksdb_options_init_from_buffer new_options slice_from_buffer_argument read_slice
      rocksdb_status_throws create_external return_external
  parse_success {text} {v} {e} s c fine made = (
    record s {
      env = e;
      lib = (parsed text s).1;
      cells = update s.cells s.next (some (native options));
      next = suc s.next;
      externals =
          record {
            value = v;
            payload = s.next;
            finalizer = Finalizer.rocksdb_options_finalize;
            hint = 0;
          }
          ∷ s.externals;
    },
    rw (c.args, c.buffer, c.content, fine, made) refl,
    ground arith,
    refl,
    refl,
  )

  -- When the library does not parse the text, the method raises the status and goes on. Where the
  -- engine makes no external while that exception is pending, and the macro then returns,
  -- rocksdb_options_init_from_buffer returns NULL: the options that it made stay on the native heap,
  -- and no external was registered that could delete them.
  pub parse_failure :
      {info : h.napi.Info} {text : Bytes} {e : h.napi.Env} (s : State)
      → TextCall info s.env text
      → h.rocks.ok? (parsed text s).0 ≡ false
      → h.napi.create_external s.next Finalizer.rocksdb_options_finalize 0
          (raised (parsed text s).0 s.env)
        ≡ none
      → h.napi.on_bad_status (raised (parsed text s).0 s.env) ≡ (return_null, e)
      → (t : State) × (rocksdb_options_init_from_buffer info s ≡ returned t)
        × (t.env ≡ e)
        × (t.cells s.next ≡ some (native options))
        × (t.externals ≡ s.externals)
  unfolding rocksdb_options_init_from_buffer new_options slice_from_buffer_argument read_slice
      rocksdb_status_throws create_external return_external
  parse_failure {text} {e} s c bad refused macro = (
    record s {
      env = e;
      lib = (parsed text s).1;
      cells = update s.cells s.next (some (native options));
      next = suc s.next;
    },
    rw (c.args, c.buffer, c.content, bad, refused, macro) refl,
    refl,
    ground arith,
    refl,
  )
