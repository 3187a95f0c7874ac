-- ===== src/Safety/Iterators.antt =====
-- Methods on iterators and batches, with keys and values in buffers.
use rocksdb_ts.Prelude.{ℕ, [], ◌∷◌, arith}
use rocksdb_ts.Host.{Host, Address, Bytes, Memory}
use rocksdb_ts.Machine.{Kind, State, Slice}
use rocksdb_ts.Iterators.{new_iterator, rocksdb_iterator_init}
use rocksdb_ts.Iterators.Moves.{
  Move, move, move_to, return_valid, moved, moved_to_buffer, rocksdb_iterator_valid,
  rocksdb_iterator_refresh,
}
use rocksdb_ts.Iterators.Entries.{Wrap, entry_part, read_part, read_pair, read_status}
use rocksdb_ts.Batches.{
  put_in_batch, delete_in_batch, db_write, rocksdb_batch_init, rocksdb_batch_init_ex,
  rocksdb_batch_put, rocksdb_batch_delete, rocksdb_batch_clear, rocksdb_batch_write,
}
use rocksdb_ts.Ownership.{Holds, native_sort, write_options_sort, read_options_sort}
use rocksdb_ts.Interface.{
  write_options_context, read_options_context, database_context, iterator_context, batch_context,
}
use rocksdb_ts.Interface.Parameters.{context, buffer, bigint}
use rocksdb_ts.Safety.{Documented, IsCall, Safe, Reads, Readable}
use rocksdb_ts.Safety.Arguments.{napi_argv-Safe}
use rocksdb_ts.Safety.Rules.{safe_rules, read_rules}

module _ ⦃h : Host⦄ where
  pub new_iterator-Reads :
      {s : State} {db : Address} {options : Address}
      → Holds s (db, native_sort Kind.database)
      → Holds s (options, read_options_sort)
      → Reads s (new_iterator db options)
  unfolding new_iterator
  new_iterator-Reads x0 x1 = search (read_rules) depth 14

  pub rocksdb_iterator_init-Safe :
      {s : State} {info : h.napi.Info}
      → Documented
      → IsCall s (context database_context ∷ context read_options_context ∷ []) info
      → Safe s (rocksdb_iterator_init info)
  unfolding rocksdb_iterator_init
  rocksdb_iterator_init-Safe d c =
      napi_argv-Safe d c (omega arith)
        λ argv (a0, (a1, z)). search (safe_rules, new_iterator-Reads) depth 14

  pub move-Reads :
      {s : State} (f : Move) {p : Address}
      → Holds s (p, native_sort Kind.iterator)
      → Reads s (move f p)
  unfolding move
  move-Reads f x = search read_rules depth 14

  pub move_to-Reads :
      {s : State} (f : Memory → Address → Bytes → h.rocks.Lib → h.rocks.Lib) {p : Address}
      {k : Slice}
      → Holds s (p, native_sort Kind.iterator)
      → Readable s k
      → Reads s (move_to f p k)
  unfolding move_to
  move_to-Reads f x y = search (read_rules, move-Reads) depth 14

  pub return_valid-Reads :
      {s : State} {p : Address}
      → Documented
      → Holds s (p, native_sort Kind.iterator)
      → Reads s (return_valid p)
  unfolding return_valid
  return_valid-Reads d x0 = search (read_rules) depth 14

  pub entry_part-Reads :
      {s : State} (part : Address → h.rocks.Lib → Bytes) {p : Address}
      → Holds s (p, native_sort Kind.iterator)
      → Reads s (entry_part part p)
  unfolding entry_part
  entry_part-Reads part x = search read_rules depth 14

  pub ruleset iterator_rules =
      (safe_rules, move-Reads, move_to-Reads, return_valid-Reads, entry_part-Reads)

  pub moved-Safe :
      {s : State} {info : h.napi.Info}
      → Documented
      → (f : Move) → IsCall s (context iterator_context ∷ []) info
      → Safe s (moved f info)
  unfolding moved
  moved-Safe d f c = napi_argv-Safe d c (omega arith) λ argv (a0, z). search iterator_rules depth 14

  pub moved_to_buffer-Safe :
      {s : State} {info : h.napi.Info}
      → Documented
      → (f : Memory → Address → Bytes → h.rocks.Lib → h.rocks.Lib)
      → IsCall s (context iterator_context ∷ buffer ∷ []) info
      → Safe s (moved_to_buffer f info)
  unfolding moved_to_buffer
  moved_to_buffer-Safe d f c =
      napi_argv-Safe d c (omega arith) λ argv (a0, (a1, z)). search iterator_rules depth 14

  pub rocksdb_iterator_valid-Safe :
      {s : State} {info : h.napi.Info}
      → Documented
      → IsCall s (context iterator_context ∷ []) info
      → Safe s (rocksdb_iterator_valid info)
  unfolding rocksdb_iterator_valid
  rocksdb_iterator_valid-Safe d c =
      napi_argv-Safe d c (omega arith) λ argv (a0, z). search iterator_rules depth 14

  pub rocksdb_iterator_refresh-Safe :
      {s : State} {info : h.napi.Info}
      → Documented
      → IsCall s (context iterator_context ∷ []) info
      → Safe s (rocksdb_iterator_refresh info)
  unfolding rocksdb_iterator_refresh
  rocksdb_iterator_refresh-Safe d c =
      napi_argv-Safe d c (omega arith) λ argv (a0, z). search iterator_rules depth 14

  pub read_part-Safe :
      {s : State} {info : h.napi.Info}
      → Documented
      → (part : Address → h.rocks.Lib → Bytes) (wrap : Wrap)
      → IsCall s (context iterator_context ∷ []) info
      → Safe s (read_part part wrap info)
  unfolding read_part
  read_part-Safe d part wrap c =
      napi_argv-Safe d c (omega arith) λ argv (a0, z). search iterator_rules depth 14

  pub read_pair-Safe :
      {s : State} {info : h.napi.Info}
      → Documented
      → (wrap : Wrap) → IsCall s (context iterator_context ∷ []) info
      → Safe s (read_pair wrap info)
  unfolding read_pair
  read_pair-Safe d wrap c =
      napi_argv-Safe d c (omega arith) λ argv (a0, z). search iterator_rules depth 14

  pub read_status-Safe :
      {s : State} {info : h.napi.Info}
      → Documented
      → (part : h.rocks.Status → ℕ) → IsCall s (context iterator_context ∷ []) info
      → Safe s (read_status part info)
  unfolding read_status
  read_status-Safe d part c =
      napi_argv-Safe d c (omega arith) λ argv (a0, z). search iterator_rules depth 14

  pub put_in_batch-Reads :
      {s : State} {p : Address} {k : Slice} {v : Slice}
      → Holds s (p, native_sort Kind.batch)
      → Readable s k
      → Readable s v
      → Reads s (put_in_batch p k v)
  unfolding put_in_batch
  put_in_batch-Reads x0 x1 x2 = search (read_rules) depth 14

  pub delete_in_batch-Reads :
      {s : State} {p : Address} {k : Slice}
      → Holds s (p, native_sort Kind.batch)
      → Readable s k
      → Reads s (delete_in_batch p k)
  unfolding delete_in_batch
  delete_in_batch-Reads x0 x1 = search (read_rules) depth 14

  pub db_write-Reads :
      {s : State} {db : Address} {options : Address} {p : Address}
      → Holds s (db, native_sort Kind.database)
      → Holds s (options, write_options_sort)
      → Holds s (p, native_sort Kind.batch)
      → Reads s (db_write db options p)
  unfolding db_write
  db_write-Reads x0 x1 x2 = search (read_rules) depth 14

  pub ruleset batch_rules = (safe_rules, put_in_batch-Reads, delete_in_batch-Reads, db_write-Reads)

  pub rocksdb_batch_init-Safe :
      {s : State} {info : h.napi.Info}
      → Documented
      → IsCall s [] info
      → Safe s (rocksdb_batch_init info)
  unfolding rocksdb_batch_init
  rocksdb_batch_init-Safe d c = search safe_rules depth 14

  pub rocksdb_batch_init_ex-Safe :
      {s : State} {info : h.napi.Info}
      → Documented
      → IsCall s (bigint ∷ bigint ∷ []) info
      → Safe s (rocksdb_batch_init_ex info)
  unfolding rocksdb_batch_init_ex
  rocksdb_batch_init_ex-Safe d c =
      napi_argv-Safe d c (omega arith) λ argv (a0, (a1, z)). search safe_rules depth 14

  pub rocksdb_batch_put-Safe :
      {s : State} {info : h.napi.Info}
      → Documented
      → IsCall s (context batch_context ∷ buffer ∷ buffer ∷ []) info
      → Safe s (rocksdb_batch_put info)
  unfolding rocksdb_batch_put
  rocksdb_batch_put-Safe d c =
      napi_argv-Safe d c (omega arith) λ argv (a0, (a1, (a2, z))). search batch_rules depth 14

  pub rocksdb_batch_delete-Safe :
      {s : State} {info : h.napi.Info}
      → Documented
      → IsCall s (context batch_context ∷ buffer ∷ []) info
      → Safe s (rocksdb_batch_delete info)
  unfolding rocksdb_batch_delete
  rocksdb_batch_delete-Safe d c =
      napi_argv-Safe d c (omega arith) λ argv (a0, (a1, z)). search batch_rules depth 14

  pub rocksdb_batch_clear-Safe :
      {s : State} {info : h.napi.Info}
      → Documented
      → IsCall s (context batch_context ∷ []) info
      → Safe s (rocksdb_batch_clear info)
  unfolding rocksdb_batch_clear
  rocksdb_batch_clear-Safe d c =
      napi_argv-Safe d c (omega arith) λ argv (a0, z). search batch_rules depth 14

  pub rocksdb_batch_write-Safe :
      {s : State} {info : h.napi.Info}
      → Documented
      → IsCall s
          (context database_context ∷ context batch_context ∷ context write_options_context ∷ [])
          info
      → Safe s (rocksdb_batch_write info)
  unfolding rocksdb_batch_write
  rocksdb_batch_write-Safe d c =
      napi_argv-Safe d c (omega arith) λ argv (a0, (a1, (a2, z))). search batch_rules depth 14
