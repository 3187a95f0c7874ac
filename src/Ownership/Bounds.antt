-- ===== src/Ownership/Bounds.antt =====
-- The character arrays that SLICE_FROM_STRING_ARGUMENT makes, and what is written into them.
use rocksdb_ts.Prelude.{◌≢◌, All, subst}
use rocksdb_ts.Host.{Host}
use rocksdb_ts.Machine.{State, overflow, fault}
use rocksdb_ts.Exports.{exports}
use rocksdb_ts.Ownership.{TextsFit, Tame, After}
use rocksdb_ts.Ownership.Steps.{All-map}
use rocksdb_ts.Ownership.Table.{exports-IsTame}

module _ ⦃h : Host⦄ where
  -- Where N-API writes no more than the size that it is told, no exported method, with any
  -- arguments and in any state, writes past the end of a character array. The arrays have the size
  -- that the engine gives for the text plus one, modulo the size of `size_t`.
  pub exports-overflow :
      (s : State) (info : h.napi.Info) → TextsFit → All (λ m. m.1 info s ≢ fault overflow) exports
  exports-overflow s info fits =
      All-map exports (λ m f e. subst (After (Tame s)) e ((f info).tame s) fits) exports-IsTame
