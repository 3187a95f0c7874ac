-- ===== src/Ownership/Iterators.antt =====
-- Methods on iterators.
use rocksdb_ts.Host.{Host, Address, Bytes, Encoding, Finalizer, Memory}
use rocksdb_ts.Prelude.{ℕ, refl, [], ◌∷◌}
use rocksdb_ts.Machine.{Slice, native, database, iterator, ◌>>=◌}
use rocksdb_ts.Machine.Macros.{return_external}
use rocksdb_ts.Iterators.{new_iterator, rocksdb_iterator_init}
use rocksdb_ts.Iterators.Moves.{
  Move, return_valid, move, move_to, moved, moved_to_buffer, moved_to_string,
  rocksdb_iterator_valid, rocksdb_iterator_refresh,
}
use rocksdb_ts.Iterators.Entries.{Wrap, entry_part, read_part, read_pair, read_status}
use rocksdb_ts.Ownership.{native_sort, IsSteady, IsTame}
use rocksdb_ts.Ownership.Heap.{expect-IsSteady, load_read_options-IsSteady, library_do-IsSteady}
use rocksdb_ts.Ownership.Making.{
  Makes, new-Makes, Makes-bind, Makes-Passes, Passes-then, Passes-pure,
}
use rocksdb_ts.Ownership.Finishing.{IsTame-Makes}
use rocksdb_ts.Ownership.Registers.{Finishes-return_external, Made-one}
use rocksdb_ts.Ownership.Rules.{steady_rules, tame_rules}

module _ ⦃h : Host⦄ where
  pub return_valid-IsSteady : (p : Address) → IsSteady (return_valid p)
  unfolding return_valid
  return_valid-IsSteady p = search steady_rules depth 14

  pub move-IsSteady : (f : Move) (p : Address) → IsSteady (move f p)
  unfolding move
  move-IsSteady f p = search steady_rules depth 14

  pub move_to-IsSteady :
      (f : Memory → Address → Bytes → h.rocks.Lib → h.rocks.Lib) (p : Address) (x : Slice)
      → IsSteady (move_to f p x)
  unfolding move_to
  move_to-IsSteady f p x = search (steady_rules, move-IsSteady) depth 14

  pub moved-IsSteady : (f : Move) (info : h.napi.Info) → IsSteady (moved f info)
  unfolding moved
  moved-IsSteady f info = search (steady_rules, move-IsSteady, return_valid-IsSteady) depth 14

  pub moved_to_buffer-IsSteady :
      (f : Memory → Address → Bytes → h.rocks.Lib → h.rocks.Lib) (info : h.napi.Info)
      → IsSteady (moved_to_buffer f info)
  unfolding moved_to_buffer
  moved_to_buffer-IsSteady f info =
      search (steady_rules, move_to-IsSteady, return_valid-IsSteady) depth 14

  pub moved_to_string-IsSteady :
      (f : Memory → Address → Bytes → h.rocks.Lib → h.rocks.Lib) (enc : Encoding)
      (info : h.napi.Info)
      → IsSteady (moved_to_string f enc info)
  unfolding moved_to_string
  moved_to_string-IsSteady f enc info =
      search (steady_rules, move_to-IsSteady, return_valid-IsSteady) depth 14

  pub rocksdb_iterator_valid-IsSteady :
      (info : h.napi.Info) → IsSteady (rocksdb_iterator_valid info)
  unfolding rocksdb_iterator_valid
  rocksdb_iterator_valid-IsSteady info = search (steady_rules, return_valid-IsSteady) depth 14

  pub rocksdb_iterator_refresh-IsSteady :
      (info : h.napi.Info) → IsSteady (rocksdb_iterator_refresh info)
  unfolding rocksdb_iterator_refresh
  rocksdb_iterator_refresh-IsSteady info = search (steady_rules, return_valid-IsSteady) depth 14

  pub entry_part-IsSteady :
      (part : Address → h.rocks.Lib → Bytes) (p : Address) → IsSteady (entry_part part p)
  unfolding entry_part
  entry_part-IsSteady part p = search steady_rules depth 14

  pub read_part-IsSteady :
      (part : Address → h.rocks.Lib → Bytes) (wrap : Wrap) (info : h.napi.Info)
      → IsSteady (read_part part wrap info)
  unfolding read_part
  read_part-IsSteady part wrap info = search (steady_rules, entry_part-IsSteady) depth 14

  pub read_pair-IsSteady : (wrap : Wrap) (info : h.napi.Info) → IsSteady (read_pair wrap info)
  unfolding read_pair
  read_pair-IsSteady wrap info = search (steady_rules, entry_part-IsSteady) depth 14

  pub read_status-IsSteady :
      (part : h.rocks.Status → ℕ) (info : h.napi.Info) → IsSteady (read_status part info)
  unfolding read_status
  read_status-IsSteady part info = search steady_rules depth 14

  new_iterator-Makes :
      (db options : Address) → Makes (λ p. (p, native_sort iterator) ∷ []) (new_iterator db options)
  unfolding new_iterator
  new_iterator-Makes db options = Makes-bind (expect-IsSteady database db) λ x.
      Makes-bind (load_read_options-IsSteady options) λ o.
        Makes-Passes (new-Makes (native iterator) refl) λ p.
          Passes-then (library_do-IsSteady (λ m. h.rocks.new_iterator m db o p)) (Passes-pure p)

  iterator_external-IsTame :
      (db options : Address)
      → IsTame
          (new_iterator db options >>= λ p. return_external p Finalizer.rocksdb_iterator_finalize 0)
  iterator_external-IsTame db options = IsTame-Makes (new_iterator-Makes db options) λ s p.
      Finishes-return_external p Finalizer.rocksdb_iterator_finalize 0
        (λ t. Made-one p (native_sort iterator)) (λ t v e x r m. tt)

  pub rocksdb_iterator_init-IsTame : (info : h.napi.Info) → IsTame (rocksdb_iterator_init info)
  unfolding rocksdb_iterator_init
  rocksdb_iterator_init-IsTame info = search (tame_rules, iterator_external-IsTame) depth 14
