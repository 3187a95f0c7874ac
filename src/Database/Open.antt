-- ===== src/Database/Open.antt =====
-- What rocksdb_open leaves when the library opens a database and when it does not.
use rocksdb_ts.Prelude.{ℕ, suc, ◌≡◌, refl, Bool, true, false, none, some, ◌∷◌, arith, update}
use rocksdb_ts.Host.{Host, Address, Bytes, Finalizer, return_null}
use rocksdb_ts.Machine.{State, ok, returned, reference_container, native, database, options}
use rocksdb_ts.Machine.Calls.{Args, Points}
use rocksdb_ts.Machine.Effects.{is_native, read_slice}
use rocksdb_ts.Machine.Macros.{
  c_str, slice_from_buffer_argument, rocksdb_status_throws, create_external,
}
use rocksdb_ts.Database.{open_database, hold_reference, rocksdb_open}

module _ ⦃h : Host⦄ where
  -- A call with the bytes of a path in a buffer, and live options.
  pub record OpenCall (info : h.napi.Info) (s : State) (path : Bytes) (p : Address) : Type 0 where
    pub argv : ℕ → h.napi.Value
    pub start : h.napi.Region
    pub size : ℕ
    pub args : Args 2 info s.env argv
    pub buffer : h.napi.get_buffer_info (argv 0) s.env ≡ some (start, size)
    pub location : h.napi.region_bytes start size s.env ≡ some path
    pub target : Points (argv 1) s.env p
    pub live : is_native options (s.cells p) ≡ true

  abbrev opened : Address → Bytes → State → (h.rocks.Status × Bool) × h.rocks.Lib
  opened p path s = h.rocks.open_db p path s.next s.lib

  -- The engine after a failed call has raised its status.
  abbrev raised : h.rocks.Status → h.napi.Env → h.napi.Env
  raised st e = h.napi.throw_error (c_str (h.rocks.to_string st)) e

  -- When the library opens the database and the engine makes the external and the reference,
  -- rocksdb_open returns the external. The database and its container are new on the native heap,
  -- the container holds the reference, the external is registered with its finalizer and with the
  -- container as the hint, and the reference keeps the external alive.
  pub open_success :
      {info : h.napi.Info} {path : Bytes} {p : Address} {v : h.napi.Value} {ref : h.napi.Ref}
      {e e' : h.napi.Env} (s : State)
      → OpenCall info s path p
      → h.rocks.ok? (opened p path s).0.0 ≡ true
      → (opened p path s).0.1 ≡ true
      → h.napi.create_external s.next Finalizer.rocksdb_finalize (suc s.next) s.env ≡ some (v, e)
      → h.napi.create_reference v 1 e ≡ some (ref, e')
      → (t : State) × (rocksdb_open info s ≡ ok (some v) t)
        × (t.cells s.next ≡ some (native database))
        × (t.cells (suc s.next) ≡ some (reference_container (some ref)))
        × (t.externals
            ≡ record {
              value = v;
              payload = s.next;
              finalizer = Finalizer.rocksdb_finalize;
              hint = suc s.next;
            }
              ∷ s.externals)
        × (t.references ≡ (suc s.next, v) ∷ s.references)
  unfolding rocksdb_open open_database slice_from_buffer_argument read_slice rocksdb_status_throws
      create_external hold_reference
  open_success {path} {p} {v} {ref} {e' = e'} s c fine stored made held = (
    record s {
      env = e';
      lib = (opened p path s).1;
      cells =
          update
            (update (update s.cells s.next (some (native database))) (suc s.next)
              (some (reference_container none)))
            (suc s.next) (some (reference_container (some ref)));
      next = suc (suc s.next);
      externals =
          record {
            value = v;
            payload = s.next;
            finalizer = Finalizer.rocksdb_finalize;
            hint = suc s.next;
          }
          ∷ s.externals;
      references = (suc s.next, v) ∷ s.references;
    },
    rw (c.args, c.buffer, c.location, c.target, c.live, stored, fine, made, held),
    ground arith,
    ground arith,
    refl,
    refl,
  )

  -- When the library does not open the database, it stores a null pointer and the method raises the
  -- status and goes on. Where the engine makes no external while that exception is pending, and the
  -- macro then returns, rocksdb_open returns NULL: the container that it made stays on the native
  -- heap, and no external was registered that could free it.
  pub open_failure :
      {info : h.napi.Info} {path : Bytes} {p : Address} {e : h.napi.Env} (s : State)
      → OpenCall info s path p
      → h.rocks.ok? (opened p path s).0.0 ≡ false
      → (opened p path s).0.1 ≡ false
      → h.napi.create_external 0 Finalizer.rocksdb_finalize s.next
          (raised (opened p path s).0.0 s.env)
        ≡ none
      → h.napi.on_bad_status (raised (opened p path s).0.0 s.env) ≡ (return_null, e)
      → (t : State) × (rocksdb_open info s ≡ returned t)
        × (t.env ≡ e)
        × (t.cells s.next ≡ some (reference_container none))
        × (t.externals ≡ s.externals)
  unfolding rocksdb_open open_database slice_from_buffer_argument read_slice rocksdb_status_throws
      create_external
  open_failure {path} {p} {e} s c bad stored refused macro = (
    record s {
      env = e;
      lib = (opened p path s).1;
      cells = update s.cells s.next (some (reference_container none));
      next = suc s.next;
    },
    rw (c.args, c.buffer, c.location, c.target, c.live, stored, bad, refused, macro),
    refl,
    ground arith,
    refl,
  )
