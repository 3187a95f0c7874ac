-- ===== src/Options/Write/Fields.antt =====
-- The Boolean fields of a rocksdb::WriteOptions are independent cells behind their getters and setters.
use rocksdb_ts.Prelude.{ℕ, ◌≡◌, refl, Bool, none, some, ◌==◌, if◌then◌else◌, arith, update}
use rocksdb_ts.Host.{Host, Address, WriteOptions}
use rocksdb_ts.Machine.{write_options_cell, State, ok, Method}
use rocksdb_ts.Machine.Macros.{make}
use rocksdb_ts.Machine.Calls.{ObjectCall, FlagCall}
use rocksdb_ts.Options.Write.{get_flag, set_flag}
use rocksdb_ts.Options.Write.{
  rocksdb_write_options_get_sync, rocksdb_write_options_get_disable_wal,
  rocksdb_write_options_get_ignore_missing_column_families, rocksdb_write_options_get_no_slowdown,
  rocksdb_write_options_get_low_pri, rocksdb_write_options_set_sync,
  rocksdb_write_options_set_disable_wal, rocksdb_write_options_set_ignore_missing_column_families,
  rocksdb_write_options_set_no_slowdown, rocksdb_write_options_set_low_pri,
}

pub data WriteFlag : Type 0 where
  sync disable_wal ignore_missing_column_families no_slowdown low_pri : WriteFlag

-- The field, and the assignment to it.
abbrev pub field : WriteFlag → WriteOptions → Bool
field sync o = o.sync
field disable_wal o = o.disable_wal
field ignore_missing_column_families o = o.ignore_missing_column_families
field no_slowdown o = o.no_slowdown
field low_pri o = o.low_pri

abbrev pub assigned : WriteFlag → Bool → WriteOptions → WriteOptions
assigned sync v o = record o { sync = v }
assigned disable_wal v o = record o { disable_wal = v }
assigned ignore_missing_column_families v o = record o { ignore_missing_column_families = v }
assigned no_slowdown v o = record o { no_slowdown = v }
assigned low_pri v o = record o { low_pri = v }

abbrev pub number : WriteFlag → ℕ
number sync = 0
number disable_wal = 1
number ignore_missing_column_families = 2
number no_slowdown = 3
number low_pri = 4

pub field-assigned :
    (f g : WriteFlag) (v : Bool) (o : WriteOptions)
    → field g (assigned f v o) ≡ (if number f == number g then v else field g o)
field-assigned sync sync v o = refl
field-assigned sync _ v o = refl
field-assigned disable_wal sync v o = refl
field-assigned disable_wal _ v o = refl
field-assigned ignore_missing_column_families sync v o = refl
field-assigned ignore_missing_column_families _ v o = refl
field-assigned no_slowdown sync v o = refl
field-assigned no_slowdown _ v o = refl
field-assigned low_pri sync v o = refl
field-assigned low_pri _ v o = refl

module _ ⦃h : Host⦄ where
  -- The exported getter and setter of each field.
  abbrev pub getter : WriteFlag → Method
  getter sync = rocksdb_write_options_get_sync
  getter disable_wal = rocksdb_write_options_get_disable_wal
  getter ignore_missing_column_families = rocksdb_write_options_get_ignore_missing_column_families
  getter no_slowdown = rocksdb_write_options_get_no_slowdown
  getter low_pri = rocksdb_write_options_get_low_pri

  abbrev pub setter : WriteFlag → Method
  setter sync = rocksdb_write_options_set_sync
  setter disable_wal = rocksdb_write_options_set_disable_wal
  setter ignore_missing_column_families = rocksdb_write_options_set_ignore_missing_column_families
  setter no_slowdown = rocksdb_write_options_set_no_slowdown
  setter low_pri = rocksdb_write_options_set_low_pri

  getter-get_flag : (f : WriteFlag) → getter f ≡ get_flag (field f)
  unfolding rocksdb_write_options_get_sync rocksdb_write_options_get_disable_wal
      rocksdb_write_options_get_ignore_missing_column_families rocksdb_write_options_get_no_slowdown
      rocksdb_write_options_get_low_pri
  getter-get_flag sync = refl
  getter-get_flag _ = refl

  setter-set_flag : (f : WriteFlag) → setter f ≡ set_flag (assigned f)
  unfolding rocksdb_write_options_set_sync rocksdb_write_options_set_disable_wal
      rocksdb_write_options_set_ignore_missing_column_families rocksdb_write_options_set_no_slowdown
      rocksdb_write_options_set_low_pri
  setter-set_flag sync = refl
  setter-set_flag _ = refl

  -- What a setter leaves.
  abbrev pub after_set : WriteFlag → Address → Bool → WriteOptions → State → State
  after_set f p v o s = record s {
    cells = update s.cells p (some (write_options_cell (assigned f v o)));
  }

  pub setter_lem :
      {info : h.napi.Info} (s : State) {p : Address} {o : WriteOptions} {v : Bool} (f : WriteFlag)
      → s.cells p ≡ some (write_options_cell o)
      → FlagCall info s.env p v
      → setter f info s ≡ ok none (after_set f p v o s)
  unfolding set_flag
  setter_lem s f live c = rw (setter-set_flag f) (ground arith)

  pub getter_lem :
      {info : h.napi.Info} (s : State) {p : Address} {o : WriteOptions} (f : WriteFlag)
      → s.cells p ≡ some (write_options_cell o)
      → ObjectCall 1 info s.env p
      → getter f info s ≡ make none (h.napi.get_boolean (field f o)) s
  unfolding get_flag
  getter_lem s f live c = rw (getter-get_flag f) (ground arith)

  -- A setter with good arguments returns, changes its own field of the object at its pointer and
  -- nothing else; a getter that runs after it on the same object gives the new value if it is of the
  -- same field, and the old value if it is of another.
  pub write_getter-setter :
      {info info' : h.napi.Info} (s : State) {p : Address} {o : WriteOptions} {v : Bool}
      (f g : WriteFlag)
      → s.cells p ≡ some (write_options_cell o)
      → FlagCall info s.env p v
      → ObjectCall 1 info' s.env p
      → (setter f info s ≡ ok none (after_set f p v o s))
        × (getter g info' (after_set f p v o s)
            ≡ make none
                (h.napi.get_boolean (if number f == number g then v else field g o))
                (after_set f p v o s))
  write_getter-setter s {p} {o} {v} f g live c d = (
    setter_lem s f live c,
    rw (← field-assigned f g v o) (getter_lem (after_set f p v o s) g (ground arith) d),
  )
