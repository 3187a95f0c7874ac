-- ===== src/Safety/Strings.antt =====
-- Methods whose keys and values are strings.
use rocksdb_ts.Prelude.{[], ◌∷◌, arith}
use rocksdb_ts.Host.{Host, Address, Bytes, Encoding, utf8, latin1, Memory}
use rocksdb_ts.Machine.{State}
use rocksdb_ts.Database.Records.{
  rocksdb_put_string, rocksdb_get_string, rocksdb_delete_string, rocksdb_delete_range_string,
}
use rocksdb_ts.Iterators.Moves.{moved_to_string}
use rocksdb_ts.Batches.{
  rocksdb_batch_put_string, rocksdb_batch_delete_utf8, rocksdb_batch_delete_latin1,
}
use rocksdb_ts.Interface.{
  write_options_context, read_options_context, database_context, iterator_context, batch_context,
}
use rocksdb_ts.Interface.Parameters.{context, string}
use rocksdb_ts.Safety.{Documented, IsCall, Safe}
use rocksdb_ts.Safety.Steps.{Calm-trans, live-Calm, Points-Calm, Readable-Calm}
use rocksdb_ts.Safety.Arguments.{napi_argv-Safe, from_external_argument-Safe}
use rocksdb_ts.Safety.Texts.{slice_from_string_argument-Safe, release-Safe, release_both-Safe}
use rocksdb_ts.Safety.Database.{record_rules}
use rocksdb_ts.Safety.Iterators.{iterator_rules, batch_rules}

module _ ⦃h : Host⦄ where
  pub rocksdb_put_string-Safe :
      {s : State} {info : h.napi.Info}
      → Documented
      → (enc : Encoding)
      → IsCall s
          (context database_context ∷ string ∷ string ∷ context write_options_context ∷ [])
          info
      → Safe s (rocksdb_put_string enc info)
  unfolding rocksdb_put_string
  rocksdb_put_string-Safe d enc call =
      napi_argv-Safe d call (omega arith) λ argv (a, (b, (c, (o, z)))).
        from_external_argument-Safe d a λ p live.
          slice_from_string_argument-Safe d enc b λ x t calm r m.
            slice_from_string_argument-Safe d enc c λ y u later q n.
              let past = Calm-trans calm later in
              let far = live-Calm past live in
              let r = Readable-Calm later r in
              let o = Points-Calm past o in search (record_rules, release_both-Safe) depth 10

  pub rocksdb_get_string-Safe :
      {s : State} {info : h.napi.Info}
      → Documented
      → (enc : Encoding)
      → IsCall s (context database_context ∷ string ∷ context read_options_context ∷ []) info
      → Safe s (rocksdb_get_string enc info)
  unfolding rocksdb_get_string
  rocksdb_get_string-Safe d enc call = napi_argv-Safe d call (omega arith) λ argv (a, (b, (o, z))).
      from_external_argument-Safe d a λ p live.
        slice_from_string_argument-Safe d enc b λ x t calm r m.
          let far = live-Calm calm live in
          let o = Points-Calm calm o in search (record_rules, release-Safe) depth 10

  pub rocksdb_delete_string-Safe :
      {s : State} {info : h.napi.Info}
      → Documented
      → (enc : Encoding)
      → IsCall s (context database_context ∷ string ∷ context write_options_context ∷ []) info
      → Safe s (rocksdb_delete_string enc info)
  unfolding rocksdb_delete_string
  rocksdb_delete_string-Safe d enc call =
      napi_argv-Safe d call (omega arith) λ argv (a, (b, (o, z))).
        from_external_argument-Safe d a λ p live.
          slice_from_string_argument-Safe d enc b λ x t calm r m.
            let far = live-Calm calm live in
            let o = Points-Calm calm o in search (record_rules, release-Safe) depth 10

  pub rocksdb_delete_range_string-Safe :
      {s : State} {info : h.napi.Info}
      → Documented
      → (enc : Encoding)
      → IsCall s
          (context database_context ∷ string ∷ string ∷ context write_options_context ∷ [])
          info
      → Safe s (rocksdb_delete_range_string enc info)
  unfolding rocksdb_delete_range_string
  rocksdb_delete_range_string-Safe d enc call =
      napi_argv-Safe d call (omega arith) λ argv (a, (b, (c, (o, z)))).
        from_external_argument-Safe d a λ p live.
          slice_from_string_argument-Safe d enc b λ x t calm r m.
            slice_from_string_argument-Safe d enc c λ y u later q n.
              let past = Calm-trans calm later in
              let far = live-Calm past live in
              let r = Readable-Calm later r in
              let o = Points-Calm past o in search (record_rules, release_both-Safe) depth 10

  pub moved_to_string-Safe :
      {s : State} {info : h.napi.Info}
      → Documented
      → (f : Memory → Address → Bytes → h.rocks.Lib → h.rocks.Lib) (enc : Encoding)
      → IsCall s (context iterator_context ∷ string ∷ []) info
      → Safe s (moved_to_string f enc info)
  unfolding moved_to_string
  moved_to_string-Safe d f enc call = napi_argv-Safe d call (omega arith) λ argv (a, (b, z)).
      from_external_argument-Safe d a λ p live.
        slice_from_string_argument-Safe d enc b λ x t calm r m.
          let far = live-Calm calm live in search (iterator_rules, release-Safe) depth 10

  pub rocksdb_batch_put_string-Safe :
      {s : State} {info : h.napi.Info}
      → Documented
      → (enc : Encoding) → IsCall s (context batch_context ∷ string ∷ string ∷ []) info
      → Safe s (rocksdb_batch_put_string enc info)
  unfolding rocksdb_batch_put_string
  rocksdb_batch_put_string-Safe d enc call =
      napi_argv-Safe d call (omega arith) λ argv (a, (b, (c, z))).
        from_external_argument-Safe d a λ p live.
          slice_from_string_argument-Safe d enc b λ x t calm r m.
            slice_from_string_argument-Safe d enc c λ y u later q n.
              let past = Calm-trans calm later in
              let far = live-Calm past live in
              let r = Readable-Calm later r in search (batch_rules, release_both-Safe) depth 10

  pub rocksdb_batch_delete_utf8-Safe :
      {s : State} {info : h.napi.Info}
      → Documented
      → IsCall s (context batch_context ∷ string ∷ []) info
      → Safe s (rocksdb_batch_delete_utf8 info)
  unfolding rocksdb_batch_delete_utf8
  rocksdb_batch_delete_utf8-Safe d call = napi_argv-Safe d call (omega arith) λ argv (a, (b, z)).
      from_external_argument-Safe d a λ p live.
        slice_from_string_argument-Safe d utf8 b λ x t calm r m.
          let far = live-Calm calm live in search (batch_rules, release-Safe) depth 10

  pub rocksdb_batch_delete_latin1-Safe :
      {s : State} {info : h.napi.Info}
      → Documented
      → IsCall s (context batch_context ∷ string ∷ []) info
      → Safe s (rocksdb_batch_delete_latin1 info)
  unfolding rocksdb_batch_delete_latin1
  rocksdb_batch_delete_latin1-Safe d call = napi_argv-Safe d call (omega arith) λ argv (a, (b, z)).
      from_external_argument-Safe d a λ p live.
        slice_from_string_argument-Safe d latin1 b λ x t calm r m.
          let far = live-Calm calm live in search (batch_rules, release-Safe) depth 10
