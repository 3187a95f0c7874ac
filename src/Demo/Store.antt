-- ===== src/Demo/Store.antt =====
-- A small library: one store, and batches as lists of edits.
use rocksdb_ts.Prelude.{
  ◌≡◌, ◌≢◌, refl, Bool, true, false, Option, none, some, List, [], ◌∷◌, ◌++◌, if◌then◌else◌, update,
  arith,
}
use rocksdb_ts.Host.{Rocks, Address, Bytes, WriteOptions, ReadOptions}
use rocksdb_ts.Batches.Replay.{same_bytes}

pub data Status : Type 0 where
  fine missing broken : Status

abbrev pub is_fine : Status → Bool
is_fine fine = true
is_fine _ = false

abbrev pub is_missing : Status → Bool
is_missing missing = true
is_missing _ = false

-- The one store, and what the batches hold: a key with its new value, or with none to delete it.
pub record Lib : Type 0 where
  pub store : Bytes → Option Bytes
  pub batches : Address → List (Bytes × Option Bytes)

abbrev pub with_key : (Bytes → Option Bytes) → Bytes → Option Bytes → Bytes → Option Bytes
with_key f k v j = if same_bytes k j then v else f j

same_bytes_refl : (k : Bytes) → same_bytes k k ≡ true
same_bytes_refl [] = refl
same_bytes_refl (x ∷ xs) = ground (arith, same_bytes_refl xs)

same_bytes_eq : (k j : Bytes) → same_bytes k j ≡ true → j ≡ k
same_bytes_eq [] [] e = refl
same_bytes_eq [] (y ∷ ys) e = ground arith
same_bytes_eq (x ∷ xs) [] e = ground arith
same_bytes_eq (x ∷ xs) (y ∷ ys) e = ground (arith, same_bytes_eq xs ys (ground arith))

pub with_key_self : (f : Bytes → Option Bytes) (k : Bytes) (v : Option Bytes) → with_key f k v k ≡ v
with_key_self f k v = rw (same_bytes_refl k) refl

with_key_apart :
    (f : Bytes → Option Bytes) (k : Bytes) (v : Option Bytes) (j : Bytes) (b : Bool)
    → same_bytes k j ≡ b
    → j ≢ k
    → with_key f k v j ≡ f j
with_key_apart f k v j true e ne = elim (ne (same_bytes_eq k j e)) [ ]
with_key_apart f k v j false e ne = rw e refl

pub with_key_other :
    (f : Bytes → Option Bytes) (k : Bytes) (v : Option Bytes) {j : Bytes}
    → j ≢ k
    → with_key f k v j ≡ f j
with_key_other f k v {j} ne = with_key_apart f k v j (same_bytes k j) refl ne

abbrev pub written : List (Bytes × Option Bytes) → (Bytes → Option Bytes) → Bytes → Option Bytes
written [] f = f
written ((k, v) ∷ ops) f = written ops (with_key f k v)

abbrev pub looked_up : Option Bytes → Status × Bytes
looked_up none = (missing, [])
looked_up (some v) = (fine, v)

abbrev pub opened : Bytes → Status × Bool
opened [] = (broken, false)
opened _ = (fine, true)

abbrev pub write_defaults : WriteOptions
write_defaults = record {
  sync = false;
  disable_wal = false;
  ignore_missing_column_families = false;
  no_slowdown = false;
  low_pri = false;
  timestamp = 0;
}

abbrev pub read_defaults : ReadOptions
read_defaults = record {
  snapshot = 0;
  timestamp = 0;
  iterate_lower_bound = 0;
  iterate_upper_bound = 0;
  readahead_size = 0;
  max_skippable_internal_keys = 0;
  iter_start_seqnum = 0;
  read_tier = 0;
  verify_checksums = true;
  fill_cache = true;
  tailing = false;
  managed = false;
  total_order_seek = false;
  prefix_same_as_start = false;
  pin_data = false;
  background_purge_on_iterator_cleanup = false;
  ignore_range_deletions = false;
}

abbrev pub store : Rocks
store = record {
  Lib = Lib;
  Status = Status;
  status_ok = fine;
  ok? = is_fine;
  is_not_found = is_missing;
  to_string = λ st. 101 ∷ [];
  code = λ st. if is_fine st then 0 else 1;
  subcode = λ st. 0;
  default_write_options = write_defaults;
  default_read_options = read_defaults;
  read_tier_of_int = λ n. n;
  new_options = λ p l. l;
  db_options_from_string = λ p b q l. ((opened b).0, l);
  delete_options = λ p l. l;
  open_db = λ o path p l. (opened path, l);
  close = λ db l. (fine, l);
  delete_db = λ db l. l;
  put = λ m db o k v l. (fine, record l { store = with_key l.store k (some v) });
  get = λ m db o k l. (looked_up (l.store k), l);
  delete = λ m db o k l. (fine, record l { store = with_key l.store k none });
  delete_range = λ m db o a b l. (fine, l);
  destroy_db = λ path p l. (fine, l);
  repair_db = λ path p l. (fine, l);
  new_iterator = λ m db o p l. l;
  seek = λ m p k l. l;
  seek_for_prev = λ m p k l. l;
  seek_to_first = λ m p l. l;
  seek_to_last = λ m p l. l;
  reset = λ p l. l;
  refresh = λ m p l. (fine, l);
  next = λ m p l. l;
  prev = λ m p l. l;
  valid = λ p l. false;
  key = λ p l. [];
  value = λ p l. [];
  iterator_status = λ p l. fine;
  delete_iterator = λ p l. l;
  new_batch = λ p l. record l { batches = update l.batches p [] };
  new_batch_sized = λ a b p l. record l { batches = update l.batches p [] };
  batch_put = λ p k v l.
      (fine, record l { batches = update l.batches p (l.batches p ++ ((k, some v) ∷ [])) });
  batch_delete =
      λ p k l. (fine, record l { batches = update l.batches p (l.batches p ++ ((k, none) ∷ [])) });
  batch_clear = λ p l. record l { batches = update l.batches p [] };
  write = λ m db o p l. (fine, record l { store = written (l.batches p) l.store });
  delete_batch = λ p l. l;
  get_snapshot = λ db p l. (true, l);
  release_snapshot = λ db p l. l;
}
