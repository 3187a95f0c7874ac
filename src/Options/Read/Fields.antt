-- ===== src/Options/Read/Fields.antt =====
-- The Boolean fields of a rocksdb::ReadOptions are independent cells behind their getters and setters.
use rocksdb_ts.Prelude.{ℕ, ◌≡◌, refl, Bool, none, some, ◌==◌, if◌then◌else◌, arith, update}
use rocksdb_ts.Host.{Host, Address, ReadOptions}
use rocksdb_ts.Machine.{read_options_cell, State, ok, Method}
use rocksdb_ts.Machine.Macros.{make}
use rocksdb_ts.Machine.Calls.{ObjectCall, FlagCall}
use rocksdb_ts.Options.Read.{get_flag, set_flag}
use rocksdb_ts.Options.Read.Flags.{
  rocksdb_read_options_get_verify_checksums, rocksdb_read_options_get_fill_cache,
  rocksdb_read_options_get_tailing, rocksdb_read_options_get_managed,
  rocksdb_read_options_get_total_order_seek, rocksdb_read_options_get_prefix_same_as_start,
  rocksdb_read_options_get_pin_data, rocksdb_read_options_get_background_purge_on_iterator_cleanup,
  rocksdb_read_options_get_ignore_range_deletions, rocksdb_read_options_set_verify_checksums,
  rocksdb_read_options_set_fill_cache, rocksdb_read_options_set_tailing,
  rocksdb_read_options_set_managed, rocksdb_read_options_set_total_order_seek,
  rocksdb_read_options_set_prefix_same_as_start, rocksdb_read_options_set_pin_data,
  rocksdb_read_options_set_background_purge_on_iterator_cleanup,
  rocksdb_read_options_set_ignore_range_deletions,
}

pub data ReadFlag : Type 0 where
  verify_checksums fill_cache tailing managed total_order_seek prefix_same_as_start pin_data
        background_purge_on_iterator_cleanup ignore_range_deletions :
      ReadFlag

-- The field, and the assignment to it.
abbrev pub field : ReadFlag → ReadOptions → Bool
field verify_checksums o = o.verify_checksums
field fill_cache o = o.fill_cache
field tailing o = o.tailing
field managed o = o.managed
field total_order_seek o = o.total_order_seek
field prefix_same_as_start o = o.prefix_same_as_start
field pin_data o = o.pin_data
field background_purge_on_iterator_cleanup o = o.background_purge_on_iterator_cleanup
field ignore_range_deletions o = o.ignore_range_deletions

abbrev pub assigned : ReadFlag → Bool → ReadOptions → ReadOptions
assigned verify_checksums v o = record o { verify_checksums = v }
assigned fill_cache v o = record o { fill_cache = v }
assigned tailing v o = record o { tailing = v }
assigned managed v o = record o { managed = v }
assigned total_order_seek v o = record o { total_order_seek = v }
assigned prefix_same_as_start v o = record o { prefix_same_as_start = v }
assigned pin_data v o = record o { pin_data = v }
assigned background_purge_on_iterator_cleanup v o = record o {
  background_purge_on_iterator_cleanup = v;
}
assigned ignore_range_deletions v o = record o { ignore_range_deletions = v }

abbrev pub number : ReadFlag → ℕ
number verify_checksums = 0
number fill_cache = 1
number tailing = 2
number managed = 3
number total_order_seek = 4
number prefix_same_as_start = 5
number pin_data = 6
number background_purge_on_iterator_cleanup = 7
number ignore_range_deletions = 8

pub field-assigned :
    (f g : ReadFlag) (v : Bool) (o : ReadOptions)
    → field g (assigned f v o) ≡ (if number f == number g then v else field g o)
field-assigned verify_checksums verify_checksums v o = refl
field-assigned verify_checksums _ v o = refl
field-assigned fill_cache verify_checksums v o = refl
field-assigned fill_cache _ v o = refl
field-assigned tailing verify_checksums v o = refl
field-assigned tailing _ v o = refl
field-assigned managed verify_checksums v o = refl
field-assigned managed _ v o = refl
field-assigned total_order_seek verify_checksums v o = refl
field-assigned total_order_seek _ v o = refl
field-assigned prefix_same_as_start verify_checksums v o = refl
field-assigned prefix_same_as_start _ v o = refl
field-assigned pin_data verify_checksums v o = refl
field-assigned pin_data _ v o = refl
field-assigned background_purge_on_iterator_cleanup verify_checksums v o = refl
field-assigned background_purge_on_iterator_cleanup _ v o = refl
field-assigned ignore_range_deletions verify_checksums v o = refl
field-assigned ignore_range_deletions _ v o = refl

module _ ⦃h : Host⦄ where
  -- The exported getter and setter of each field.
  abbrev pub getter : ReadFlag → Method
  getter verify_checksums = rocksdb_read_options_get_verify_checksums
  getter fill_cache = rocksdb_read_options_get_fill_cache
  getter tailing = rocksdb_read_options_get_tailing
  getter managed = rocksdb_read_options_get_managed
  getter total_order_seek = rocksdb_read_options_get_total_order_seek
  getter prefix_same_as_start = rocksdb_read_options_get_prefix_same_as_start
  getter pin_data = rocksdb_read_options_get_pin_data
  getter background_purge_on_iterator_cleanup =
      rocksdb_read_options_get_background_purge_on_iterator_cleanup
  getter ignore_range_deletions = rocksdb_read_options_get_ignore_range_deletions

  abbrev pub setter : ReadFlag → Method
  setter verify_checksums = rocksdb_read_options_set_verify_checksums
  setter fill_cache = rocksdb_read_options_set_fill_cache
  setter tailing = rocksdb_read_options_set_tailing
  setter managed = rocksdb_read_options_set_managed
  setter total_order_seek = rocksdb_read_options_set_total_order_seek
  setter prefix_same_as_start = rocksdb_read_options_set_prefix_same_as_start
  setter pin_data = rocksdb_read_options_set_pin_data
  setter background_purge_on_iterator_cleanup =
      rocksdb_read_options_set_background_purge_on_iterator_cleanup
  setter ignore_range_deletions = rocksdb_read_options_set_ignore_range_deletions

  getter-get_flag : (f : ReadFlag) → getter f ≡ get_flag (field f)
  unfolding rocksdb_read_options_get_verify_checksums rocksdb_read_options_get_fill_cache
      rocksdb_read_options_get_tailing rocksdb_read_options_get_managed
      rocksdb_read_options_get_total_order_seek rocksdb_read_options_get_prefix_same_as_start
      rocksdb_read_options_get_pin_data
      rocksdb_read_options_get_background_purge_on_iterator_cleanup
      rocksdb_read_options_get_ignore_range_deletions
  getter-get_flag verify_checksums = refl
  getter-get_flag _ = refl

  setter-set_flag : (f : ReadFlag) → setter f ≡ set_flag (assigned f)
  unfolding rocksdb_read_options_set_verify_checksums rocksdb_read_options_set_fill_cache
      rocksdb_read_options_set_tailing rocksdb_read_options_set_managed
      rocksdb_read_options_set_total_order_seek rocksdb_read_options_set_prefix_same_as_start
      rocksdb_read_options_set_pin_data
      rocksdb_read_options_set_background_purge_on_iterator_cleanup
      rocksdb_read_options_set_ignore_range_deletions
  setter-set_flag verify_checksums = refl
  setter-set_flag _ = refl

  -- What a setter leaves.
  abbrev pub after_set : ReadFlag → Address → Bool → ReadOptions → State → State
  after_set f p v o s = record s {
    cells = update s.cells p (some (read_options_cell (assigned f v o)));
  }

  pub setter_lem :
      {info : h.napi.Info} (s : State) {p : Address} {o : ReadOptions} {v : Bool} (f : ReadFlag)
      → s.cells p ≡ some (read_options_cell o)
      → FlagCall info s.env p v
      → setter f info s ≡ ok none (after_set f p v o s)
  unfolding set_flag
  setter_lem s f live c = rw (setter-set_flag f) (ground arith)

  pub getter_lem :
      {info : h.napi.Info} (s : State) {p : Address} {o : ReadOptions} (f : ReadFlag)
      → s.cells p ≡ some (read_options_cell o)
      → ObjectCall 1 info s.env p
      → getter f info s ≡ make none (h.napi.get_boolean (field f o)) s
  unfolding get_flag
  getter_lem s f live c = rw (getter-get_flag f) (ground arith)

  -- A setter with good arguments returns, changes its own field of the object at its pointer and
  -- nothing else; a getter that runs after it on the same object gives the new value if it is of the
  -- same field, and the old value if it is of another.
  pub read_getter-setter :
      {info info' : h.napi.Info} (s : State) {p : Address} {o : ReadOptions} {v : Bool}
      (f g : ReadFlag)
      → s.cells p ≡ some (read_options_cell o)
      → FlagCall info s.env p v
      → ObjectCall 1 info' s.env p
      → (setter f info s ≡ ok none (after_set f p v o s))
        × (getter g info' (after_set f p v o s)
            ≡ make none
                (h.napi.get_boolean (if number f == number g then v else field g o))
                (after_set f p v o s))
  read_getter-setter s {p} {o} {v} f g live c d = (
    setter_lem s f live c,
    rw (← field-assigned f g v o) (getter_lem (after_set f p v o s) g (ground arith) d),
  )
