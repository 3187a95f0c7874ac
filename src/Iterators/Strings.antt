-- ===== src/Iterators/Strings.antt =====
-- Moves of an iterator to a key: the string variants against the buffer variants.
use rocksdb_ts.Prelude.{ℕ, suc, ◌<◌, ◌≡◌, refl, true, none, some, ap, ◌∙◌}
use rocksdb_ts.Host.{Host, Address, Bytes, Encoding, Memory}
use rocksdb_ts.Machine.{iterator, Slice, State, ok}
use rocksdb_ts.Machine.Calls.{Args, Points, Encodes}
use rocksdb_ts.Machine.Effects.{is_native, memory, read_slice}
use rocksdb_ts.Machine.Macros.{make, slice_from_buffer_argument}
use rocksdb_ts.Machine.Strings.{
  with_array, HasRoom, old_cell, only_array, slice_from_string_argument_lem, read_array,
  release_one,
}
use rocksdb_ts.Iterators.Moves.{return_valid, move, move_to, moved_to_buffer, moved_to_string}

module _ ⦃h : Host⦄ where
  -- A call with an iterator and a string.
  pub record StringMove (enc : Encoding) (info : h.napi.Info) (e : h.napi.Env) (p : Address)
      (k : Bytes) : Type 0 where
    pub argv : ℕ → h.napi.Value
    pub args : Args 2 info e argv
    pub target : Points (argv 0) e p
    pub key : Encodes enc (argv 1) e k

  -- A call with an iterator and a buffer.
  pub record BufferMove (info : h.napi.Info) (e : h.napi.Env) (p : Address) (k : Bytes)
      : Type 0 where
    pub argv : ℕ → h.napi.Value
    pub args : Args 2 info e argv
    pub target : Points (argv 0) e p
    pub start : h.napi.Region
    pub size : ℕ
    pub buffer : h.napi.get_buffer_info (argv 1) e ≡ some (start, size)
    pub content : h.napi.region_bytes start size e ≡ some k

  return_valid_lem :
      (s : State) (p : Address)
      → is_native iterator (s.cells p) ≡ true
      → return_valid p s ≡ make none (h.napi.get_boolean (h.rocks.valid p s.lib)) s
  unfolding return_valid
  return_valid_lem s p live = rw live refl

  move_to_lem :
      (f : Memory → Address → Bytes → h.rocks.Lib → h.rocks.Lib) (s : State) (p : Address)
      (x : Slice) {k : Bytes}
      → is_native iterator (s.cells p) ≡ true
      → read_slice x s ≡ ok k s
      → move_to f p x s ≡ ok tt (record s { lib = f (memory s) p k s.lib })
  unfolding move_to move
  move_to_lem f s p x live r = rw (r, live) refl

  moved_to_string_lem :
      (f : Memory → Address → Bytes → h.rocks.Lib → h.rocks.Lib) {enc : Encoding}
      {info : h.napi.Info} {p : Address} {k : Bytes} (s : State)
      → HasRoom s
      → is_native iterator (s.cells p) ≡ true
      → p < s.next
      → StringMove enc info s.env p k
      → moved_to_string f enc info s ≡ (
          let l = f (memory (with_array k s)) p k s.lib in
          make none
            (h.napi.get_boolean (h.rocks.valid p l))
            (record s { lib = l; next = suc s.next }))
  unfolding moved_to_string
  moved_to_string_lem f {enc} {p} {k} s room live old c =
      rw
        (
          c.args,
          c.target,
          slice_from_string_argument_lem s enc c.key,
          move_to_lem f (with_array k s) p _ (ap (is_native iterator) (old_cell s k old) ∙ live)
              (read_array (with_array k s) s.next k (only_array s k)),
          release_one s k _ _ room,
        )
        (return_valid_lem _ p live)

  moved_to_buffer_lem :
      (f : Memory → Address → Bytes → h.rocks.Lib → h.rocks.Lib) {info : h.napi.Info} {p : Address}
      {k : Bytes} (s : State)
      → is_native iterator (s.cells p) ≡ true
      → BufferMove info s.env p k
      → moved_to_buffer f info s ≡ (
          let l = f (memory s) p k s.lib in
          make none (h.napi.get_boolean (h.rocks.valid p l)) (record s { lib = l }))
  unfolding moved_to_buffer slice_from_buffer_argument read_slice move_to move
  moved_to_buffer_lem f s live c =
      rw (c.args, c.target, c.buffer, c.content, live) (return_valid_lem _ _ live)

  -- Both variants of a move to a key move the live iterator by the same call of the library to the
  -- same bytes, answer whether it is valid after the move, and leave the native heap as it was: the
  -- array of the string is released.
  pub moved_to_string-moved_to_buffer :
      (f : Memory → Address → Bytes → h.rocks.Lib → h.rocks.Lib) {enc : Encoding}
      {info info' : h.napi.Info} {p : Address} {k : Bytes} (s : State)
      → HasRoom s
      → is_native iterator (s.cells p) ≡ true
      → p < s.next
      → StringMove enc info s.env p k
      → BufferMove info' s.env p k
      → (moved_to_string f enc info s ≡ (
          let l = f (memory (with_array k s)) p k s.lib in
          make none
            (h.napi.get_boolean (h.rocks.valid p l))
            (record s { lib = l; next = suc s.next })))
        × (moved_to_buffer f info' s ≡ (
            let l = f (memory s) p k s.lib in
            make none (h.napi.get_boolean (h.rocks.valid p l)) (record s { lib = l })))
  moved_to_string-moved_to_buffer f s room live old c d =
      (moved_to_string_lem f s room live old c, moved_to_buffer_lem f s live d)
