-- ===== src/Batches/Calls.antt =====
-- Calls that change a batch: what each does with good arguments.
use rocksdb_ts.Prelude.{ℕ, suc, ◌<◌, ◌≡◌, refl, true, none, ap, ◌∙◌}
use rocksdb_ts.Host.{Host, Address, Bytes, Encoding, utf8, latin1}
use rocksdb_ts.Machine.{batch, Slice, State, ok}
use rocksdb_ts.Machine.Calls.{Args, Points, Encodes, ObjectCall}
use rocksdb_ts.Machine.Effects.{is_native, read_slice}
use rocksdb_ts.Machine.Strings.{
  with_array, both, HasRoom, old_cell, old_cell_both, first_of_both, second_of_both, only_array,
  slice_from_string_argument_lem, read_array, release_both, release_one,
}
use rocksdb_ts.Database.Strings.{thrown, rocksdb_status_throws_lem}
use rocksdb_ts.Batches.{
  put_in_batch, delete_in_batch, rocksdb_batch_put_string, rocksdb_batch_delete_utf8,
  rocksdb_batch_delete_latin1, rocksdb_batch_clear,
}

module _ ⦃h : Host⦄ where
  -- A call with a batch and two strings.
  pub record BatchPutCall (enc : Encoding) (info : h.napi.Info) (e : h.napi.Env) (q : Address)
      (k v : Bytes) : Type 0 where
    pub argv : ℕ → h.napi.Value
    pub args : Args 3 info e argv
    pub target : Points (argv 0) e q
    pub key : Encodes enc (argv 1) e k
    pub value : Encodes enc (argv 2) e v

  -- A call with a batch and one string.
  pub record BatchKeyCall (enc : Encoding) (info : h.napi.Info) (e : h.napi.Env) (q : Address)
      (k : Bytes) : Type 0 where
    pub argv : ℕ → h.napi.Value
    pub args : Args 2 info e argv
    pub target : Points (argv 0) e q
    pub key : Encodes enc (argv 1) e k

  -- A live batch below the unused addresses.
  pub record HasBatch (s : State) (q : Address) : Type 0 where
    pub room : HasRoom s
    pub live : is_native batch (s.cells q) ≡ true
    pub old : q < s.next

  put_in_batch_lem :
      (s : State) {q : Address} (k v : Slice) {kb vb : Bytes}
      → is_native batch (s.cells q) ≡ true
      → read_slice k s ≡ ok kb s
      → read_slice v s ≡ ok vb s
      → put_in_batch q k v s
        ≡ (let r = h.rocks.batch_put q kb vb s.lib in ok r.0 (record s { lib = r.1 }))
  unfolding put_in_batch
  put_in_batch_lem s k v live rk rv = rw (live, rk, rv)

  delete_in_batch_lem :
      (s : State) {q : Address} (k : Slice) {kb : Bytes}
      → is_native batch (s.cells q) ≡ true
      → read_slice k s ≡ ok kb s
      → delete_in_batch q k s
        ≡ (let r = h.rocks.batch_delete q kb s.lib in ok r.0 (record s { lib = r.1 }))
  unfolding delete_in_batch
  delete_in_batch_lem s k live rk = rw (live, rk)

  pub rocksdb_batch_put_string_lem :
      {enc : Encoding} {info : h.napi.Info} {k v : Bytes} {q : Address} (s : State)
      → HasBatch s q
      → BatchPutCall enc info s.env q k v
      → rocksdb_batch_put_string enc info s ≡ (
          let r = h.rocks.batch_put q k v s.lib in
          ok none (record s { env = thrown r.0 s.env; lib = r.1; next = suc (suc s.next) }))
  unfolding rocksdb_batch_put_string
  rocksdb_batch_put_string_lem {enc} {k} {v} {q} s b c =
      rw
        (
          c.args,
          c.target,
          slice_from_string_argument_lem s enc c.key,
          slice_from_string_argument_lem (with_array k s) enc c.value,
          put_in_batch_lem (both k v s) _ _
              (ap (is_native batch) (old_cell_both s k v b.old) ∙ b.live)
              (read_array (both k v s) s.next k (first_of_both s k v))
              (read_array (both k v s) (suc s.next) v (second_of_both s k v)),
          release_both s k v _ _ b.room,
        )
        (rw rocksdb_status_throws_lem)

  pub rocksdb_batch_delete_utf8_lem :
      {info : h.napi.Info} {k : Bytes} {q : Address} (s : State)
      → HasBatch s q
      → BatchKeyCall utf8 info s.env q k
      → rocksdb_batch_delete_utf8 info s ≡ (
          let r = h.rocks.batch_delete q k s.lib in
          ok none (record s { env = thrown r.0 s.env; lib = r.1; next = suc s.next }))
  unfolding rocksdb_batch_delete_utf8
  rocksdb_batch_delete_utf8_lem {k} {q} s b c =
      rw
        (
          c.args,
          c.target,
          slice_from_string_argument_lem s utf8 c.key,
          delete_in_batch_lem (with_array k s) _
              (ap (is_native batch) (old_cell s k b.old) ∙ b.live)
              (read_array (with_array k s) s.next k (only_array s k)),
          release_one s k _ _ b.room,
        )
        (rw rocksdb_status_throws_lem)

  pub rocksdb_batch_delete_latin1_lem :
      {info : h.napi.Info} {k : Bytes} {q : Address} (s : State)
      → HasBatch s q
      → BatchKeyCall latin1 info s.env q k
      → rocksdb_batch_delete_latin1 info s ≡ (
          let r = h.rocks.batch_delete q k s.lib in
          ok none (record s { env = thrown r.0 s.env; lib = r.1; next = suc s.next }))
  unfolding rocksdb_batch_delete_latin1
  rocksdb_batch_delete_latin1_lem {k} {q} s b c =
      let r = h.rocks.batch_delete q k s.lib in
      rw
        (
          c.args,
          c.target,
          slice_from_string_argument_lem s latin1 c.key,
          delete_in_batch_lem (with_array k s) _
              (ap (is_native batch) (old_cell s k b.old) ∙ b.live)
              (read_array (with_array k s) s.next k (only_array s k)),
          rocksdb_status_throws_lem,
        )
        (release_one (record s { env = thrown r.0 s.env }) k r.1 _
          (record { unused = b.room.unused }))

  pub rocksdb_batch_clear_lem :
      {info : h.napi.Info} {q : Address} (s : State)
      → is_native batch (s.cells q) ≡ true
      → ObjectCall 1 info s.env q
      → rocksdb_batch_clear info s ≡ ok none (record s { lib = h.rocks.batch_clear q s.lib })
  unfolding rocksdb_batch_clear
  rocksdb_batch_clear_lem s live c = rw (c.args, c.target, live) refl
