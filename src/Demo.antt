-- ===== src/Demo.antt =====
-- A small engine, a small store and a small logger, at which the definitions run and the hypotheses
-- of the theorems hold.
mod Engine
mod Store
pub use Engine.*
pub use Store.*
use rocksdb_ts.Prelude.{
  ℕ, suc, ◌-◌, ◌%◌, ◌^◌, ◌≡◌, ◌≢◌, refl, Bool, true, false, Option, none, some, List, [], ◌∷◌, ◌++◌,
  if◌then◌else◌, length, take, update, arith, ap, ◌∙◌,
}
use rocksdb_ts.Host.{
  Host, Napi, Rocks, LoggingLibrary, Address, Bytes, return_null, WriteOptions, ReadOptions,
}
use rocksdb_ts.Database.Store.{IsStore}
use rocksdb_ts.Batches.Replay.{Edit, IsBatchStore, same_bytes, replay}

abbrev logger : LoggingLibrary
logger = record {
  Loggers = Bytes;
  Configurations = Bytes;
  configurations = λ path. path;
  reconfigure_logger = λ name conf l. conf;
  reconfigure_all_loggers = λ conf l. conf;
}

instance abbrev pub demo : Host
demo = record { napi = engine; rocks = store; logging = logger; size_mod = 2 ^ 64 }

abbrev contents : Lib → Address → Bytes → Option Bytes
contents l db k = l.store k

-- The small store does what the documentation of Put, Get and Delete says.
abbrev pub demo_store : IsStore ⦃h = demo⦄
demo_store = record {
  contents = contents;
  put_self = λ m db o k v l e. with_key_self l.store k (some v);
  put_other = λ m db o k v l j ne. with_key_other l.store k (some v) ne;
  delete_self = λ m db o k l e. with_key_self l.store k none;
  delete_other = λ m db o k l j ne. with_key_other l.store k none ne;
  get_some = λ m db k v l e. rw e (refl, refl);
  get_none = λ m db k l e. rw e (refl, refl);
}

abbrev as_edits : List (Bytes × Option Bytes) → List Edit
as_edits [] = []
as_edits ((k, some v) ∷ ops) = Edit.put k v ∷ as_edits ops
as_edits ((k, none) ∷ ops) = Edit.erase k ∷ as_edits ops

pub as_edits-append :
    (xs ys : List (Bytes × Option Bytes)) → as_edits (xs ++ ys) ≡ as_edits xs ++ as_edits ys
as_edits-append [] ys = refl
as_edits-append ((k, some v) ∷ xs) ys = ap (λ es. Edit.put k v ∷ es) (as_edits-append xs ys)
as_edits-append ((k, none) ∷ xs) ys = ap (λ es. Edit.erase k ∷ es) (as_edits-append xs ys)

pub replay-as_edits :
    (ops : List (Bytes × Option Bytes)) (f : Bytes → Option Bytes) (j : Bytes)
    → written ops f j ≡ replay (as_edits ops) f j
replay-as_edits [] f j = refl
replay-as_edits ((k, some v) ∷ ops) f j = replay-as_edits ops (with_key f k (some v)) j
replay-as_edits ((k, none) ∷ ops) f j = replay-as_edits ops (with_key f k none) j

pub update_self :
    (f : Address → List (Bytes × Option Bytes)) (p : Address) (x : List (Bytes × Option Bytes))
    → update f p x p ≡ x
update_self f p x = ground arith

abbrev edits : Lib → Address → List Edit
edits l q = as_edits (l.batches q)

-- Its batches do what the documentation of WriteBatch says.
abbrev pub demo_batches : IsBatchStore ⦃h = demo⦄
demo_batches = record {
  contents = contents;
  edits = edits;
  put_edits = λ q k v l e.
      ap as_edits (update_self l.batches q (l.batches q ++ ((k, some v) ∷ [])))
      ∙ as_edits-append (l.batches q) ((k, some v) ∷ []);
  put_contents = λ q db k v l j. refl;
  erase_edits = λ q k l e.
      ap as_edits (update_self l.batches q (l.batches q ++ ((k, none) ∷ [])))
      ∙ as_edits-append (l.batches q) ((k, none) ∷ []);
  erase_contents = λ q db k l j. refl;
  clear_edits = λ q l. ap as_edits (update_self l.batches q []);
  clear_contents = λ q db l j. refl;
  write_contents = λ m db q o l j e. replay-as_edits (l.batches q) l.store j;
}
