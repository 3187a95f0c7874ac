-- ===== src/Ownership/Keeps.antt =====
-- The invariant of ownership under the exported methods.
use rocksdb_ts.Prelude.{◌≡◌, refl, List, [], ◌∷◌, ◌++◌, All, arith, ap, sym, subst, ◌∙◌}
use rocksdb_ts.Host.{Host}
use rocksdb_ts.Machine.{External, State}
use rocksdb_ts.Exports.{exports}
use rocksdb_ts.Ownership.{claims, freed, Holds, Distinct, Sound, Tame, After}
use rocksdb_ts.Ownership.Steps.{Lives-sort, After-map, All-map}
use rocksdb_ts.Ownership.Making.{All-append, Distinct-append}
use rocksdb_ts.Ownership.Table.{exports-IsTame}

module _ ⦃h : Host⦄ where
  pub append_assoc : {A : Type 0} (xs ys zs : List A) → (xs ++ ys) ++ zs ≡ xs ++ (ys ++ zs)
  append_assoc [] ys zs = refl
  append_assoc (x ∷ xs) ys zs = ap (λ ws. x ∷ ws) (append_assoc xs ys zs)

  pub claims-append : (xs ys : List External) → claims (xs ++ ys) ≡ claims xs ++ claims ys
  claims-append [] ys = refl
  claims-append (x ∷ xs) ys =
      ap (λ cs. freed x.finalizer x.payload x.hint ++ cs) (claims-append xs ys)
      ∙ sym (append_assoc (freed x.finalizer x.payload x.hint) (claims xs) (claims ys))

  registered_claims :
      {s t : State} (x : Tame s t) → claims x.added ++ claims s.externals ≡ claims t.externals
  registered_claims {s} x = sym (ap claims x.registered ∙ claims-append x.added s.externals)

  pub Sound-Tame : {s t : State} → Tame s t → Sound s → Sound t
  Sound-Tame {s} {t} x a = record {
    held =
        subst (λ cs. All (Holds t) cs) (registered_claims x)
          (All-append (Holds t) (claims x.added) (claims s.externals) x.made.held (
            All-map (claims s.externals)
              (λ c y. let g = x.grows in (Lives-sort s t c.0 c.1 x.lives y.1 y.0, omega arith))
              a.held));
    once =
        subst (λ cs. Distinct cs) (registered_claims x)
          (Distinct-append s (claims x.added) (claims s.externals) x.made.since x.made.once a.held
            a.once);
  }

  -- In a state where every object that the registered finalizers free is live, of the class that its
  -- finalizer frees, and freed by no other, every exported method, whatever its arguments, ends in
  -- such a state, also where it returns early, unless it has undefined behaviour. It writes past the
  -- end of an array only where N-API writes more than it is told.
  pub exports-Sound :
      (s : State) (info : h.napi.Info) → Sound s → All (λ m. After Sound (m.1 info s)) exports
  exports-Sound s info a =
      All-map exports (λ m f. After-map (m.1 info s) (λ t x. Sound-Tame x a) ((f info).tame s))
        exports-IsTame
