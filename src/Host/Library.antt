-- ===== src/Host/Library.antt =====
-- The RocksDB library (deps/rocksdb/rocksdb/include/rocksdb) as the binding calls it. Its objects
-- live at addresses inside an unknown state; the two option structs, whose fields the binding reads
-- and writes itself, are records of those fields.
use rocksdb_ts.Prelude.{ℕ, Bool, Option}
use rocksdb_ts.Host.Engine.{Address, Bytes}

pub record WriteOptions : Type 0 where
  pub sync : Bool
  pub disable_wal : Bool
  pub ignore_missing_column_families : Bool
  pub no_slowdown : Bool
  pub low_pri : Bool
  pub timestamp : Address

pub record ReadOptions : Type 0 where
  pub snapshot : Address
  pub timestamp : Address
  pub iterate_lower_bound : Address
  pub iterate_upper_bound : Address
  pub readahead_size : ℕ
  pub max_skippable_internal_keys : ℕ
  pub iter_start_seqnum : ℕ
  pub read_tier : ℕ
  pub verify_checksums : Bool
  pub fill_cache : Bool
  pub tailing : Bool
  pub managed : Bool
  pub total_order_seek : Bool
  pub prefix_same_as_start : Bool
  pub pin_data : Bool
  pub background_purge_on_iterator_cleanup : Bool
  pub ignore_range_deletions : Bool

-- What the library finds where an option struct points to a slice; `none` if no slice lives there.
abbrev pub Memory : Type 0
Memory = Address → Option Bytes

pub record Rocks : Type 1 where
  pub Lib : Type 0
  pub Status : Type 0
  -- `Status::OK()`, `ok()`, `IsNotFound()`, `ToString()`, `code()`, `subcode()`.
  pub status_ok : Status
  pub ok? : Status → Bool
  pub is_not_found : Status → Bool
  pub to_string : Status → Bytes
  pub code : Status → ℕ
  pub subcode : Status → ℕ
  -- The constructors of the option structs, and the cast `(rocksdb::ReadTier)value`.
  pub default_write_options : WriteOptions
  pub default_read_options : ReadOptions
  pub read_tier_of_int : ℕ → ℕ
  -- rocksdb::Options objects. The library parses into the object at the last address.
  pub new_options : Address → Lib → Lib
  pub db_options_from_string : Address → Bytes → Address → Lib → Status × Lib
  pub delete_options : Address → Lib → Lib
  -- DB::Open gives the status, and whether it stored a database or a null pointer.
  pub open_db : Address → Bytes → Address → Lib → (Status × Bool) × Lib
  pub close : Address → Lib → Status × Lib
  pub delete_db : Address → Lib → Lib
  pub put : Memory → Address → WriteOptions → Bytes → Bytes → Lib → Status × Lib
  pub get : Memory → Address → ReadOptions → Bytes → Lib → (Status × Bytes) × Lib
  pub delete : Memory → Address → WriteOptions → Bytes → Lib → Status × Lib
  pub delete_range : Memory → Address → WriteOptions → Bytes → Bytes → Lib → Status × Lib
  pub destroy_db : Bytes → Address → Lib → Status × Lib
  pub repair_db : Bytes → Address → Lib → Status × Lib
  -- Iterators: database, options, and the address of the new object.
  pub new_iterator : Memory → Address → ReadOptions → Address → Lib → Lib
  pub seek : Memory → Address → Bytes → Lib → Lib
  pub seek_for_prev : Memory → Address → Bytes → Lib → Lib
  pub seek_to_first : Memory → Address → Lib → Lib
  pub seek_to_last : Memory → Address → Lib → Lib
  pub reset : Address → Lib → Lib
  pub refresh : Memory → Address → Lib → Status × Lib
  pub next : Memory → Address → Lib → Lib
  pub prev : Memory → Address → Lib → Lib
  pub valid : Address → Lib → Bool
  pub key : Address → Lib → Bytes
  pub value : Address → Lib → Bytes
  pub iterator_status : Address → Lib → Status
  pub delete_iterator : Address → Lib → Lib
  -- Write batches; a new one is given its reserved and its maximal size.
  pub new_batch : Address → Lib → Lib
  pub new_batch_sized : ℕ → ℕ → Address → Lib → Lib
  pub batch_put : Address → Bytes → Bytes → Lib → Status × Lib
  pub batch_delete : Address → Bytes → Lib → Status × Lib
  pub batch_clear : Address → Lib → Lib
  pub write : Memory → Address → WriteOptions → Address → Lib → Status × Lib
  pub delete_batch : Address → Lib → Lib
  -- Snapshots: whether the database gave one (it may give a null pointer).
  pub get_snapshot : Address → Address → Lib → Bool × Lib
  pub release_snapshot : Address → Address → Lib → Lib
