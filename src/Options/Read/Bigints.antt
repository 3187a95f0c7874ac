-- ===== src/Options/Read/Bigints.antt =====
-- The bigint fields of a rocksdb::ReadOptions behind their getters and setters.
use rocksdb_ts.Prelude.{ℕ, ◌≡◌, refl, none, some, ◌==◌, ◌%◌, if◌then◌else◌, arith, update}
use rocksdb_ts.Host.{Host, Address, ReadOptions}
use rocksdb_ts.Machine.{read_options_cell, State, ok, Method}
use rocksdb_ts.Machine.Macros.{make}
use rocksdb_ts.Machine.Calls.{ObjectCall, BigintCall}
use rocksdb_ts.Options.Read.Numbers.{
  get_uint64, set_uint64, rocksdb_read_options_get_max_skippable_internal_keys,
  rocksdb_read_options_get_iter_start_seqnum, rocksdb_read_options_get_readahead_size,
  rocksdb_read_options_set_max_skippable_internal_keys, rocksdb_read_options_set_iter_start_seqnum,
  rocksdb_read_options_set_readahead_size,
}

pub data NumberField : Type 0 where
  max_skippable_internal_keys iter_start_seqnum readahead_size : NumberField

abbrev pub field : NumberField → ReadOptions → ℕ
field max_skippable_internal_keys o = o.max_skippable_internal_keys
field iter_start_seqnum o = o.iter_start_seqnum
field readahead_size o = o.readahead_size

abbrev pub number : NumberField → ℕ
number max_skippable_internal_keys = 0
number iter_start_seqnum = 1
number readahead_size = 2

module _ ⦃h : Host⦄ where
  -- What is stored of an unsigned 64-bit value: the cast to `size_t` cuts one field.
  abbrev pub stored : NumberField → ℕ → ℕ
  stored readahead_size v = v % h.size_mod
  stored _ v = v

  abbrev pub assigned : NumberField → ℕ → ReadOptions → ReadOptions
  assigned max_skippable_internal_keys v o = record o {
    max_skippable_internal_keys = stored max_skippable_internal_keys v;
  }
  assigned iter_start_seqnum v o = record o { iter_start_seqnum = stored iter_start_seqnum v }
  assigned readahead_size v o = record o { readahead_size = stored readahead_size v }

  pub field-assigned :
      (f g : NumberField) (v : ℕ) (o : ReadOptions)
      → field g (assigned f v o) ≡ (if number f == number g then stored f v else field g o)
  field-assigned max_skippable_internal_keys max_skippable_internal_keys v o = refl
  field-assigned max_skippable_internal_keys _ v o = refl
  field-assigned iter_start_seqnum max_skippable_internal_keys v o = refl
  field-assigned iter_start_seqnum _ v o = refl
  field-assigned readahead_size max_skippable_internal_keys v o = refl
  field-assigned readahead_size _ v o = refl

  abbrev pub getter : NumberField → Method
  getter max_skippable_internal_keys = rocksdb_read_options_get_max_skippable_internal_keys
  getter iter_start_seqnum = rocksdb_read_options_get_iter_start_seqnum
  getter readahead_size = rocksdb_read_options_get_readahead_size

  abbrev pub setter : NumberField → Method
  setter max_skippable_internal_keys = rocksdb_read_options_set_max_skippable_internal_keys
  setter iter_start_seqnum = rocksdb_read_options_set_iter_start_seqnum
  setter readahead_size = rocksdb_read_options_set_readahead_size

  getter-get_uint64 : (f : NumberField) → getter f ≡ get_uint64 (field f)
  unfolding rocksdb_read_options_get_max_skippable_internal_keys
      rocksdb_read_options_get_iter_start_seqnum rocksdb_read_options_get_readahead_size
  getter-get_uint64 max_skippable_internal_keys = refl
  getter-get_uint64 _ = refl

  setter-set_uint64 : (f : NumberField) → setter f ≡ set_uint64 (assigned f)
  unfolding rocksdb_read_options_set_max_skippable_internal_keys
      rocksdb_read_options_set_iter_start_seqnum rocksdb_read_options_set_readahead_size
  setter-set_uint64 max_skippable_internal_keys = refl
  setter-set_uint64 _ = refl

  abbrev pub after_set : NumberField → Address → ℕ → ReadOptions → State → State
  after_set f p v o s = record s {
    cells = update s.cells p (some (read_options_cell (assigned f v o)));
  }

  setter_lem :
      {info : h.napi.Info} (s : State) {p : Address} {o : ReadOptions} {v : ℕ} (f : NumberField)
      → s.cells p ≡ some (read_options_cell o)
      → BigintCall info s.env p v
      → setter f info s ≡ ok none (after_set f p v o s)
  unfolding set_uint64
  setter_lem s f live c = rw (setter-set_uint64 f) (ground arith)

  getter_lem :
      {info : h.napi.Info} (s : State) {p : Address} {o : ReadOptions} (f : NumberField)
      → s.cells p ≡ some (read_options_cell o)
      → ObjectCall 1 info s.env p
      → getter f info s ≡ make none (h.napi.create_bigint_uint64 (field f o)) s
  unfolding get_uint64
  getter_lem s f live c = rw (getter-get_uint64 f) (ground arith)

  -- A setter of a bigint field stores the unsigned 64-bit value that the engine reads, whether or
  -- not that reading was lossless, in its own field of the object; `readahead_size` keeps it modulo
  -- the range of `size_t`. A getter that runs after it gives the stored value as a bigint if it is
  -- of the same field, and the old value if it is of another.
  pub bigint_getter-setter :
      {info info' : h.napi.Info} (s : State) {p : Address} {o : ReadOptions} {v : ℕ}
      (f g : NumberField)
      → s.cells p ≡ some (read_options_cell o)
      → BigintCall info s.env p v
      → ObjectCall 1 info' s.env p
      → (setter f info s ≡ ok none (after_set f p v o s))
        × (getter g info' (after_set f p v o s)
            ≡ make none
                (h.napi.create_bigint_uint64
                  (if number f == number g then stored f v else field g o))
                (after_set f p v o s))
  bigint_getter-setter s {p} {o} {v} f g live c d = (
    setter_lem s f live c,
    rw (← field-assigned f g v o) (getter_lem (after_set f p v o s) g (ground arith) d),
  )
