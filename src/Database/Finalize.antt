-- ===== src/Database/Finalize.antt =====
-- The finalizer of a database frees the database and its container, whatever goes wrong.
use rocksdb_ts.Prelude.{◌≡◌, ◌≢◌, refl, true, false, Option, none, some, arith, update, ◌==◌, List}
use rocksdb_ts.Host.{Host, Address, Control, return_null, proceed}
use rocksdb_ts.Machine.{State, end_call, ◌>>◌, ok, reference_container, database}
use rocksdb_ts.Machine.Effects.{is_native}
use rocksdb_ts.Machine.Macros.{napi_status_throws, rocksdb_status_throws}
use rocksdb_ts.Database.Strings.{thrown, rocksdb_status_throws_lem}
use rocksdb_ts.Database.{without_container, release_container, close_and_delete, rocksdb_finalize}

module _ ⦃h : Host⦄ where
  -- What the end of the container is for the rest of the process.
  abbrev pub Released : (s : State) → Address → Type 0
  Released s container =
      (st : Option (Unit {0})) × (e : h.napi.Env) × (refs : List (Address × h.napi.Value))
      × (release_container container s
          ≡ ok st (record s { env = e; references = refs; cells = update s.cells container none }))

  Released-of :
      (s : State) (container : Address) (ref : Option h.napi.Ref) (r : Option h.napi.Env)
      → s.cells container ≡ some (reference_container ref)
      → ((x : h.napi.Ref) → ref ≡ some x → h.napi.delete_reference x s.env ≡ r)
      → Released s container
  unfolding release_container
  Released-of s container none r held e = (none, s.env, s.references, rw (held, held))
  Released-of s container (some x) none held e =
      (none, s.env, s.references, rw (held, e x refl, held))
  Released-of s container (some x) (some e') held e =
      (some tt, e', without_container container s.references, rw (held, e x refl, held))

  pub container-Released :
      (s : State) (container : Address) (ref : Option h.napi.Ref)
      → s.cells container ≡ some (reference_container ref)
      → Released s container
  container-Released s container none held = Released-of s container none none held (λ x e. cc)
  container-Released s container (some x) held =
      Released-of s container (some x) (h.napi.delete_reference x s.env) held (λ y e. ground arith)

  pub close_and_delete_lem :
      (s : State) (db : Address)
      → is_native database (s.cells db) ≡ true
      → close_and_delete db s
        ≡ ok (h.rocks.close db s.lib).0 (record s {
          lib = h.rocks.delete_db db (h.rocks.close db s.lib).1;
          cells = update s.cells db none;
        })
  unfolding close_and_delete
  close_and_delete_lem s db live = rw (live, live)

  -- Whatever the statuses and the macro, the reports change the engine alone.
  abbrev pub Reported : State → Option (Unit {0}) → h.rocks.Status → Type 0
  Reported s st cs =
      (e : h.napi.Env) × (end_call ((napi_status_throws (some tt) st >> rocksdb_status_throws cs) s)
        ≡ ok tt (record s { env = e }))

  Reported-bad :
      (s : State) (cs : h.rocks.Status) (r : Control × h.napi.Env)
      → h.napi.on_bad_status s.env ≡ r
      → Reported s none cs
  unfolding napi_status_throws
  Reported-bad s cs (return_null, e) macro = (e, rw macro)
  Reported-bad s cs (proceed, e) macro = (thrown cs e, rw (macro, rocksdb_status_throws_lem))

  pub Reported-status :
      (s : State) (st : Option (Unit {0})) (cs : h.rocks.Status) → Reported s st cs
  unfolding napi_status_throws
  Reported-status s (some x) cs = (thrown cs s.env, rw rocksdb_status_throws_lem)
  Reported-status s none cs = Reported-bad s cs (h.napi.on_bad_status s.env) refl

  is_not_zero : (p : Address) → p ≢ 0 → (p == 0) ≡ false
  is_not_zero p ne = ground arith

  -- With a live database and a live container, the finalizer ends normally, whether the engine
  -- deletes the reference or not, whether the library closes without error or not, and whatever the
  -- macro does: both addresses are free afterwards, and every other address is as it was. The
  -- library has closed the database and then deleted it.
  pub finalize_frees :
      {ref : Option h.napi.Ref} (s : State) (db container : Address)
      → db ≢ 0
      → container ≢ 0
      → is_native database (s.cells db) ≡ true
      → s.cells container ≡ some (reference_container ref)
      → (t : State) × (rocksdb_finalize db container s ≡ ok tt t)
        × (t.cells ≡ update (update s.cells container none) db none)
        × (t.lib ≡ h.rocks.delete_db db (h.rocks.close db s.lib).1)
  unfolding rocksdb_finalize
  finalize_frees {ref} s db container a b live held =
      let (st, e, refs, released) = container-Released s container ref held in
      let t : State = record s {
        env = e;
        references = refs;
        cells = update s.cells container none;
      } in
      let still : is_native database (t.cells db) ≡ true = ground arith in
      let u : State = record t {
        lib = h.rocks.delete_db db (h.rocks.close db s.lib).1;
        cells = update t.cells db none;
      } in
      let (e', reported) = Reported-status u st (h.rocks.close db s.lib).0 in
      (
        record u { env = e' },
        rw (is_not_zero container b, is_not_zero db a, released, close_and_delete_lem t db still)
            reported,
        refl,
        refl,
      )
