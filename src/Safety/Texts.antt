-- ===== src/Safety/Texts.antt =====
-- The temporary arrays of SLICE_FROM_STRING_ARGUMENT, from where they are made to their release.
use rocksdb_ts.Prelude.{
  ℕ, suc, ◌+◌, ◌-◌, ◌%◌, ◌≤◌, ◌≡◌, refl, ◌∙◌, Option, none, some, [], le→leb, arith, length, take,
  update,
}
use rocksdb_ts.Host.{Host, Address, Bytes, Encoding}
use rocksdb_ts.Machine.{chars_cell, array, Slice, State, ok, M, ◌>>=◌, ◌>>◌}
use rocksdb_ts.Machine.Effects.{new, slice_bytes}
use rocksdb_ts.Machine.Macros.{
  array_slice, string_size, copy_string, bytes_written, slice_from_string_argument,
  slice_from_string_argument_release,
}
use rocksdb_ts.Safety.{Ends, Leads, Documented, IsText, Calm, Safe, Readable, Temporary}
use rocksdb_ts.Safety.Steps.{Calm-refl, Calm-trans, Ends-and_then, Leads-and_then}
use rocksdb_ts.Safety.Parts.{napi_status_throws-Leads}

module _ ⦃h : Host⦄ where
  -- The state with one more array.
  abbrev longer : State → ℕ → Bytes → State
  longer t size b = record t {
    cells =
        update (update t.cells t.next (some (chars_cell size []))) t.next
          (some (chars_cell size b));
    next = suc t.next;
  }

  Calm-longer : {s : State} (t : State) (size : ℕ) (b : Bytes) → Calm s t → Calm s (longer t size b)
  Calm-longer t size b x = record {
    grows = let g = x.grows in omega arith;
    same = λ p l. let g = x.grows in let e = x.same p l in ground arith;
  }

  at_longer :
      (t : State) (size : ℕ) (b : Bytes) → (longer t size b).cells t.next ≡ some (chars_cell size b)
  at_longer t size b = ground arith

  Readable-longer :
      (t : State) (size : ℕ) (b : Bytes)
      → Readable (longer t size b) (array_slice t.next (length b))
  unfolding slice_bytes
  Readable-longer t size b = record {
    bytes = λ u x.
        let e = x.same t.next (omega arith) ∙ at_longer t size b in
        (take (length b) b, rw (e, le→leb (length b) (length b) (omega arith)) refl);
  }

  Temporary-longer :
      {s : State} (t : State) (size : ℕ) (b : Bytes)
      → Calm s t
      → Temporary s (longer t size b) (array_slice t.next (length b))
  Temporary-longer t size b x = record {
    calm = Calm-longer t size b x;
    place = t.next;
    size = size;
    content = b;
    shown = refl;
    since = x.grows;
    old = omega arith;
    live = at_longer t size b;
  }

  -- What is known behind the macro.
  abbrev Made : State → Slice → State → Type 0
  Made s x u = Readable u x × Temporary s u x

  room_for : (size : ℕ) (b : Bytes) → length b ≤ size - 1 → bytes_written size b ≤ size
  room_for size b l = ground arith

  abbrev started : State → ℕ → State
  started t size = record t {
    cells = update t.cells t.next (some (chars_cell size []));
    next = suc t.next;
  }

  at_started :
      (t : State) (size : ℕ)
      → update t.cells t.next (some (chars_cell size [])) t.next ≡ some (chars_cell size [])
  at_started t size = ground arith

  no_text : {A : Type 0} {a : A} → none ≡ some a → ⊥
  no_text e = ground arith

  Leads-copy_string :
      (s : State) (d : Documented) (enc : Encoding) (v : h.napi.Value) (t : State) (size : ℕ)
      (r : Option Bytes)
      → Calm s t
      → h.napi.string_copy enc v size t.env ≡ r
      → Leads (λ n. Made s (array_slice t.next n)) (copy_string enc v t.next size (started t size))
  unfolding copy_string
  Leads-copy_string s d enc v t size none x q =
      rw (q, Leads)
        (napi_status_throws-Leads d (started t size) _ (some size) none (λ a e. absurd (no_text e)))
  Leads-copy_string s d enc v t size (some b) x q =
      let l = room_for size b (d.fits enc v size t.env b q) in
      rw (q, at_started t size, le→leb (bytes_written size b) size l, Leads)
        (Readable-longer t size b, Temporary-longer t size b x)

  -- The macro, and what follows it.
  pub slice_from_string_argument-Safe :
      {s : State} {B : Type 0} {f : Slice → M B} {v : h.napi.Value}
      → Documented
      → (enc : Encoding) → IsText v
      → ((x : Slice) (u : State) → Calm s u → Readable u x → Temporary s u x → Safe u (f x))
      → Safe s (slice_from_string_argument enc v >>= f)
  unfolding slice_from_string_argument string_size new
  slice_from_string_argument-Safe {s} {f} {v} d enc a g = record {
    safe = λ t y.
        let (n, e) = a.measured enc t.env in
        let size = (n + 1) % h.size_mod in
        rw (e, Ends)
          (Ends-and_then (Made s) _ f
            (Leads-and_then _ (Made s) (copy_string enc v t.next size (started t size)) _
              (Leads-copy_string s d enc v t size (h.napi.string_copy enc v size t.env) y refl)
              (λ m u z. z))
            (λ x u (r, z). (g x u z.calm r z).safe u (Calm-refl u)));
  }

  released :
      (w : State) (x : Slice) {p : Address} {size : ℕ} {b : Bytes}
      → x.start ≡ array p
      → w.cells p ≡ some (chars_cell size b)
      → slice_from_string_argument_release x w ≡ ok tt (record w { cells = update w.cells p none })
  unfolding slice_from_string_argument_release
  released w x shown live = rw (shown, live)

  -- One array is released.
  pub release-Safe :
      {s u : State} {B : Type 0} {x : Slice} {n : M B}
      → Temporary s u x
      → Safe s n
      → Safe u (slice_from_string_argument_release x >> n)
  release-Safe {s} {u} {x} {n} a f = record {
    safe = λ w y.
        let old = a.old in
        let since = a.since in
        rw (released w x a.shown (y.same a.place old ∙ a.live), Ends)
          (f.safe _ (record {
            grows = (Calm-trans a.calm y).grows;
            same = λ p l. let e = (Calm-trans a.calm y).same p l in ground arith;
          }));
  }

  -- Two arrays are released.
  pub release_both-Safe :
      {s t u : State} {B : Type 0} {x y : Slice} {n : M B}
      → Temporary s t x
      → Temporary t u y
      → Safe s n
      → Safe u (slice_from_string_argument_release x >> (slice_from_string_argument_release y >> n))
  release_both-Safe {s} {t} {u} {x} {y} {n} a b f = record {
    safe = λ w z.
        let past = Calm-trans b.calm z in
        let first = past.same a.place a.old ∙ a.live in
        let second = z.same b.place b.old ∙ b.live in
        let old = a.old in
        let since = b.since in
        let from = a.since in
        let all = Calm-trans a.calm past in
        let still : update w.cells a.place none b.place ≡ some (chars_cell b.size b.content) =
          ground arith in
        rw (released w x a.shown first, Ends)
          (rw (released (record w { cells = update w.cells a.place none }) y b.shown still, Ends)
            (f.safe _ (record {
              grows = all.grows;
              same = λ p l. let e = all.same p l in let g = a.calm.grows in ground arith;
            })));
  }
