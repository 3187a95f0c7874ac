-- ===== src/Ownership/Databases.antt =====
-- The finalizer of databases, and what it frees.
use rocksdb_ts.Prelude.{
  ◌≡◌, refl, Bool, true, false, Option, none, some, [], ◌∷◌, ◌++◌, ◌==◌, if◌then◌else◌, All, arith,
  update,
}
use rocksdb_ts.Host.{Host, Address}
use rocksdb_ts.Machine.{Kind, Cell, reference_container, State, ok, M, pure, ◌>>=◌, ◌>>◌, end_call}
use rocksdb_ts.Machine.Effects.{is_native}
use rocksdb_ts.Machine.Macros.{napi_status_throws, rocksdb_status_throws}
use rocksdb_ts.Database.{close_and_delete, rocksdb_finalize}
use rocksdb_ts.Database.Finalize.{container-Released, close_and_delete_lem, Reported-status}
use rocksdb_ts.Ownership.{sort_of, container_sort, native_sort, unless_null, Holds}
use rocksdb_ts.Ownership.Finalizers.{Ends, is_native_of}

module _ ⦃h : Host⦄ where
  container_of :
      (c : Option Cell)
      → sort_of c ≡ some container_sort
      → (r : Option h.napi.Ref) × (c ≡ some (reference_container r))
  container_of (some (reference_container r)) e = (r, refl)
  container_of (some _) e = ground arith
  container_of none e = ground arith

  -- rocksdb_finalize after the container.
  abbrev rest : Address → Option (Unit {0}) → M (Unit {0})
  rest db status = do
    close_status ← if db == 0 then pure h.rocks.status_ok else close_and_delete db
    napi_status_throws (some tt) status
    rocksdb_status_throws close_status

  rest_null :
      (t : State) (status : Option (Unit {0})) (db : Address)
      → (db == 0) ≡ true
      → (e : h.napi.Env) × (end_call (rest db status t) ≡ ok tt (record t { env = e }))
  rest_null t status db q = let (e, r) = Reported-status t status h.rocks.status_ok in (e, rw q r)

  rest_live :
      (t : State) (status : Option (Unit {0})) (db : Address)
      → (db == 0) ≡ false
      → is_native Kind.database (t.cells db) ≡ true
      → (e : h.napi.Env) × (end_call (rest db status t)
          ≡ ok tt (record t {
            env = e;
            lib = h.rocks.delete_db db (h.rocks.close db t.lib).1;
            cells = update t.cells db none;
          }))
  rest_live t status db q live =
      let u : State = record t {
        lib = h.rocks.delete_db db (h.rocks.close db t.lib).1;
        cells = update t.cells db none;
      } in
      let (e, r) = Reported-status u status (h.rocks.close db t.lib).0 in
      (e, rw (q, close_and_delete_lem t db live) r)

  database_cases :
      (s : State) (db c : Address) (a b : Bool)
      → (c == 0) ≡ a
      → (db == 0) ≡ b
      → All (Holds s) (
          (if a then [] else (c, container_sort) ∷ [])
          ++ (if b then [] else (db, native_sort Kind.database) ∷ []))
      → Ends (rocksdb_finalize db c) s (
          (if a then [] else (c, container_sort) ∷ [])
          ++ (if b then [] else (db, native_sort Kind.database) ∷ []))
  unfolding rocksdb_finalize
  database_cases s db c true true ec ed x =
      let (e, r) = rest_null s (some tt) db ed in
      (
        record s { env = e },
        rw ec r,
        record {
          kept = omega arith;
          lives = λ p k y z. z;
          room = λ m. m;
          refs = λ n. refl;
          same = refl;
        },
      )
  database_cases s db c true false ec ed (x, y) =
      let (e, r) = rest_live s (some tt) db ed (is_native_of Kind.database (s.cells db) x.0) in
      (
        record s {
          env = e;
          lib = h.rocks.delete_db db (h.rocks.close db s.lib).1;
          cells = update s.cells db none;
        },
        rw ec r,
        record {
          kept = omega arith;
          lives = λ p k (ne, u) live. ground arith;
          room = λ m q l. ground (arith, m q);
          refs = λ n. refl;
          same = refl;
        },
      )
  database_cases s db c false true ec ed (x, y) =
      let (ref, held) = container_of (s.cells c) x.0 in
      let (st, e, refs, released) = container-Released s c ref held in
      let (f, r) =
        rest_null (record s { env = e; references = refs; cells = update s.cells c none }) st db
          ed in
      (
        record s { env = f; references = refs; cells = update s.cells c none },
        rw (ec, released) r,
        record {
          kept = omega arith;
          lives = λ p k (ne, u) live. ground arith;
          room = λ m q l. ground (arith, m q);
          refs = λ n. absurd (n.0 refl);
          same = refl;
        },
      )
  database_cases s db c false false ec ed (x, (y, z)) =
      let (ref, held) = container_of (s.cells c) x.0 in
      let (st, e, refs, released) = container-Released s c ref held in
      let t : State = record s { env = e; references = refs; cells = update s.cells c none } in
      let live : is_native Kind.database (t.cells db) ≡ true =
        let n = is_native_of Kind.database (s.cells db) y.0 in ground arith in
      let (f, r) = rest_live t st db ed live in
      (
        record t {
          env = f;
          lib = h.rocks.delete_db db (h.rocks.close db s.lib).1;
          cells = update t.cells db none;
        },
        rw (ec, released) r,
        record {
          kept = omega arith;
          lives = λ p k (ne, (ne', u)) l. ground arith;
          room = λ m q l. ground (arith, m q);
          refs = λ n. absurd (n.0 refl);
          same = refl;
        },
      )

  pub database-Ends :
      (s : State) (db c : Address)
      → All (Holds s) (unless_null c container_sort ++ unless_null db (native_sort Kind.database))
      → Ends
          (rocksdb_finalize db c)
          s
          (unless_null c container_sort ++ unless_null db (native_sort Kind.database))
  database-Ends s db c = database_cases s db c (c == 0) (db == 0) refl refl
