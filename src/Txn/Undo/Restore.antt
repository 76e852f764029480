-- ===== src/Txn/Undo/Restore.antt =====
-- A rolled-back transaction of src/transaction.c leaves no trace in the store.
use inventixdb.Base.{
  ℕ, ◌≡◌, inl, inr, refl, ap, ◌∙◌, [], ◌∷◌, Option, none, some, true, Bool-cases, Bytes, codes,
}
use inventixdb.Txn.{
  Manager, StoreOps, kept_value, create_operation, or_default, txn_begin, put_back, delete_key,
  delete_schema, put_schema, undo, undo_all, txn_rollback, has_savepoint, active_txn, txn_savepoint,
  txn_release_savepoint,
}
use inventixdb.Txn.Undo.{
  IsMap, Steps, start, inserted, updated, deleted, created, dropped, indexed, saved, released,
  LeadsBack, delete-put, put-put, put-delete, logged,
}

-- Savepoints do not touch the undo log.
savepoint-LeadsBack :
    {S : Type 0} (ops : StoreOps S) (Key : Bytes → Type 0) (Good : S → Type 0) (db : Bytes)
    (base : S) (m : Manager) (s : S) (name : Option Bytes)
    → LeadsBack ops Key Good db base m s
    → LeadsBack ops Key Good db base (txn_savepoint m name).0 s
unfolding txn_savepoint active_txn
savepoint-LeadsBack ops Key Good db base m s none l = l
savepoint-LeadsBack ops Key Good db base m s (some []) l = l
savepoint-LeadsBack ops Key Good db base m s (some (c ∷ cs)) l =
    elim (Bool-cases (has_savepoint (c ∷ cs) l.txn.savepoints)) [
      | inl taken ↦ rw (l.is_current, l.is_active, taken, active_txn, txn_savepoint) l
      | inr new ↦
          rw (l.is_current, l.is_active, new, active_txn, txn_savepoint)
            (record {
              txn = _;
              is_current = refl;
              is_active = refl;
              is_database = l.is_database;
              keys = l.keys;
              good = l.good;
              restores = l.restores;
            })
    ]

release-LeadsBack :
    {S : Type 0} (ops : StoreOps S) (Key : Bytes → Type 0) (Good : S → Type 0) (db : Bytes)
    (base : S) (m : Manager) (s : S) (name : Bytes)
    → LeadsBack ops Key Good db base m s
    → LeadsBack ops Key Good db base (txn_release_savepoint m name).0 s
unfolding txn_release_savepoint active_txn
release-LeadsBack ops Key Good db base m s name l =
    elim (Bool-cases (has_savepoint name l.txn.savepoints)) [
      | inl found ↦
          rw (l.is_current, l.is_active, found, active_txn, txn_release_savepoint)
            (record {
              txn = _;
              is_current = refl;
              is_active = refl;
              is_database = l.is_database;
              keys = l.keys;
              good = l.good;
              restores = l.restores;
            })
      | inr absent ↦ rw (l.is_current, l.is_active, absent, active_txn, txn_release_savepoint) l
    ]

module _ {S : Type 0} (ops : StoreOps S) (Key : Bytes → Type 0) (Good : S → Type 0)
    (map : IsMap ops Key Good) where
  steps-LeadsBack :
      (db : Bytes) (base : S) (m : Manager) (s : S) (m' : Manager) (s' : S)
      → LeadsBack ops Key Good db base m s
      → Steps ops Key db m s m' s'
      → LeadsBack ops Key Good db base m' s'
  unfolding undo create_operation kept_value put_back delete_key delete_schema put_schema
  steps-LeadsBack db base m s _ _ l start = l
  steps-LeadsBack db base m s _ _ l (inserted m1 s1 table k v st e hk) =
      let p = steps-LeadsBack db base m s m1 s1 l st in
      logged ops Key Good map db base m1 s1 _ _ _ p (λ t. refl) (λ t. refl) (λ t. refl) hk
        (map.good-put s1 k v p.good hk) (delete-put ops Key Good map s1 k v p.good hk e)
  steps-LeadsBack db base m s _ _ l (updated m1 s1 table k v b bs st e hk) =
      let p = steps-LeadsBack db base m s m1 s1 l st in
      logged ops Key Good map db base m1 s1 _ _ _ p (λ t. refl) (λ t. refl) (λ t. refl) hk
        (map.good-put s1 k v p.good hk) (put-put ops Key Good map s1 k v _ p.good hk e)
  steps-LeadsBack db base m s _ _ l (deleted m1 s1 table k b bs st e hk) =
      let p = steps-LeadsBack db base m s m1 s1 l st in
      logged ops Key Good map db base m1 s1 _ _ _ p (λ t. refl) (λ t. refl) (λ t. refl) hk
        (map.good-delete s1 k p.good hk) (put-delete ops Key Good map s1 k _ p.good hk e)
  steps-LeadsBack db base m s _ _ l (created m1 s1 table j v st e hk) =
      let p = steps-LeadsBack db base m s m1 s1 l st in
      logged ops Key Good map db base m1 s1 _ _ _ p (λ t. refl) (λ t. refl) (λ t. refl) hk
        (map.good-put s1 _ v p.good hk) (delete-put ops Key Good map s1 _ v p.good hk e)
  steps-LeadsBack db base m s _ _ l (dropped m1 s1 table j rows st e hk) =
      let p = steps-LeadsBack db base m s m1 s1 l st in
      logged ops Key Good map db base m1 s1 _ _ _ p (λ t. refl) (λ t. refl) (λ t. refl) hk
        (map.good-delete s1 _ p.good hk) (put-delete ops Key Good map s1 _ _ p.good hk e)
  steps-LeadsBack db base m s _ _ l (indexed m1 s1 table column st) =
      let p = steps-LeadsBack db base m s m1 s1 l st in
      logged ops Key Good map db base m1 s1 _ _ _ p (λ t. refl) (λ t. refl) (λ t. refl) tt p.good
        (p.good, p.good, λ j h. refl)
  steps-LeadsBack db base m s _ _ l (saved m1 s1 name st) =
      savepoint-LeadsBack ops Key Good db base m1 s1 name (steps-LeadsBack db base m s m1 s1 l st)
  steps-LeadsBack db base m s _ _ l (released m1 s1 name st) =
      release-LeadsBack ops Key Good db base m1 s1 name (steps-LeadsBack db base m s m1 s1 l st)

begin-LeadsBack :
    {S : Type 0} (ops : StoreOps S) (Key : Bytes → Type 0) (Good : S → Type 0) (m : Manager) (s : S)
    (user database : Option Bytes) (now : ℕ)
    → m.current_txn ≡ none
    → Good s
    → LeadsBack ops Key Good
        (or_default database (codes "public"))
        s
        (txn_begin m user database now).0
        s
unfolding txn_begin undo_all
begin-LeadsBack ops Key Good m s user database now idle g =
    rw (idle, txn_begin)
      (record {
        txn = _;
        is_current = refl;
        is_active = refl;
        is_database = refl;
        keys = tt;
        good = g;
        restores = (g, g, λ j h. refl);
      })

-- The rollback, over a store that is a map on the keys of the transaction
pub rollback_lem :
    {S : Type 0} (ops : StoreOps S) (Key : Bytes → Type 0) (Good : S → Type 0) (m : Manager) (s : S)
    (user database : Option Bytes) (now : ℕ) (m' : Manager) (s' : S)
    → IsMap ops Key Good
    → Good s
    → m.current_txn ≡ none
    → Steps ops Key (or_default database (codes "public")) (txn_begin m user database now).0 s m' s'
    → ((txn_rollback ops m' s').2 ≡ true)
      × ((txn_rollback ops m' s').0.current_txn ≡ none)
      × ((k : Bytes) → Key k → ops.kv_get (txn_rollback ops m' s').1 k ≡ ops.kv_get s k)
unfolding txn_rollback
rollback_lem ops Key Good m s user database now m' s' map g idle st =
    let l =
      steps-LeadsBack ops Key Good map _ s (txn_begin m user database now).0 s m' s'
        (begin-LeadsBack ops Key Good m s user database now idle g) st in
    rw (l.is_current, l.is_active, txn_rollback)
      (
        refl,
        refl,
        λ k hk.
            ap (λ db. ops.kv_get (undo_all ops db l.txn.operations s') k) l.is_database
            ∙ l.restores.2 k hk,
      )
