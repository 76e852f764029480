-- ===== src/Txn/Partial/Restore.antt =====
-- A rollback to a savepoint (src/transaction.c) undoes exactly the row changes since the savepoint.
use inventixdb.Base.{
  ℕ, ◌≡◌, inl, inr, refl, sym, ap, subst, ◌∙◌, List, [], ◌∷◌, Option, none, some, true, false,
  Bool-cases, Bytes, length, arith, str_eq, str_eq_iff, str_eq_refl,
}
use inventixdb.Txn.{
  Manager, Transaction, TxnOperation, Savepoint, StoreOps, kept_value, create_operation, put_back,
  delete_key, undo_partial, undo_to, from_savepoint, has_savepoint, active_txn, txn_savepoint,
  txn_rollback_to_savepoint,
}
use inventixdb.Txn.Inv.{IsTransaction, or_false}
use inventixdb.Txn.Undo.{IsMap, Same, delete-put, put-put, put-delete}
use inventixdb.Txn.Partial.{
  RowSteps, start, inserted, updated, deleted, saved, HasRowKeys, LeadsBackTo, undo_to_stop,
  logged_after,
}

from-has :
    (name : Bytes) (sps : List Savepoint)
    → has_savepoint name sps ≡ false
    → from_savepoint name sps ≡ []
unfolding has_savepoint from_savepoint
from-has name [] h = refl
from-has name (sp ∷ sps) h =
    let split = or_false (str_eq sp.name name) (has_savepoint name sps) h in
    rw (split.0) (from-has name sps split.1)

-- A savepoint whose name was not taken does not stand before the one that is there.
other_name :
    (name new : Bytes) (sps older : List Savepoint) (mark : Savepoint)
    → from_savepoint name sps ≡ mark ∷ older
    → has_savepoint new sps ≡ false
    → str_eq new name ≡ false
other_name name new sps older mark e h = elim (Bool-cases (str_eq new name)) [
  | inl same ↦
      let taken : has_savepoint name sps ≡ false =
        subst (λ n. has_savepoint n sps ≡ false) ((str_eq_iff new name).0 same) h in
      absurd (cc (e, from-has name sps taken))
  | inr differs ↦ differs
]

module _ {S : Type 0} (ops : StoreOps S) (Key : Bytes → Type 0) (Good : S → Type 0) where
  savepoint-LeadsBackTo :
      (name : Bytes) (log : List TxnOperation) (base : S) (m : Manager) (s : S) (new : Option Bytes)
      → LeadsBackTo ops Key Good name log base m s
      → LeadsBackTo ops Key Good name log base (txn_savepoint m new).0 s
  unfolding txn_savepoint active_txn from_savepoint
  savepoint-LeadsBackTo name log base m s none l = l
  savepoint-LeadsBackTo name log base m s (some []) l = l
  savepoint-LeadsBackTo name log base m s (some (c ∷ cs)) l =
      elim (Bool-cases (has_savepoint (c ∷ cs) l.txn.savepoints)) [
        | inl taken ↦ rw (l.is_current, l.is_active, taken, active_txn, txn_savepoint) l
        | inr free ↦
            rw (l.is_current, l.is_active, free, active_txn, txn_savepoint)
              (record {
                txn = _;
                is_current = refl;
                is_active = refl;
                reaches = l.reaches;
                mark = l.mark;
                older = l.older;
                marks =
                    rw (other_name name (c ∷ cs) l.txn.savepoints l.older l.mark l.marks free)
                      l.marks;
                mark_count = l.mark_count;
                keys = l.keys;
                good = l.good;
                left = l.left;
                restores = l.restores;
              })
      ]

  module _ (map : IsMap ops Key Good) where
    steps-LeadsBackTo :
        (name : Bytes) (log : List TxnOperation) (base : S) (m : Manager) (s : S) (m' : Manager)
        (s' : S)
        → LeadsBackTo ops Key Good name log base m s
        → RowSteps ops Key m s m' s'
        → LeadsBackTo ops Key Good name log base m' s'
    unfolding undo_partial create_operation kept_value put_back delete_key
    steps-LeadsBackTo name log base m s _ _ l start = l
    steps-LeadsBackTo name log base m s _ _ l (inserted m1 s1 table k v st e hk) =
        let p = steps-LeadsBackTo name log base m s m1 s1 l st in
        logged_after ops Key Good map name log base m1 s1 _ _ _ p (λ t. refl) (λ t. refl)
          (λ t. refl) (λ t. refl) hk (map.good-put s1 k v p.good hk)
          (delete-put ops Key Good map s1 k v p.good hk e)
    steps-LeadsBackTo name log base m s _ _ l (updated m1 s1 table k v b bs st e hk) =
        let p = steps-LeadsBackTo name log base m s m1 s1 l st in
        logged_after ops Key Good map name log base m1 s1 _ _ _ p (λ t. refl) (λ t. refl)
          (λ t. refl) (λ t. refl) hk (map.good-put s1 k v p.good hk)
          (put-put ops Key Good map s1 k v _ p.good hk e)
    steps-LeadsBackTo name log base m s _ _ l (deleted m1 s1 table k b bs st e hk) =
        let p = steps-LeadsBackTo name log base m s m1 s1 l st in
        logged_after ops Key Good map name log base m1 s1 _ _ _ p (λ t. refl) (λ t. refl)
          (λ t. refl) (λ t. refl) hk (map.good-delete s1 k p.good hk)
          (put-delete ops Key Good map s1 k _ p.good hk e)
    steps-LeadsBackTo name log base m s _ _ l (saved m1 s1 new st) =
        savepoint-LeadsBackTo name log base m1 s1 new
          (steps-LeadsBackTo name log base m s m1 s1 l st)

  set-LeadsBackTo :
      (m : Manager) (t : Transaction) (s : S) (c : ℕ) (cs : Bytes)
      → m.current_txn ≡ some t
      → IsTransaction t
      → has_savepoint (c ∷ cs) t.savepoints ≡ false
      → HasRowKeys Key t.operations
      → Good s
      → LeadsBackTo ops Key Good (c ∷ cs) t.operations s (txn_savepoint m (some (c ∷ cs))).0 s
  unfolding txn_savepoint active_txn from_savepoint
  set-LeadsBackTo m t s c cs e it free keys g =
      let stop : undo_to ops (length t.operations) t.operations t.operation_count s
          ≡ (t.operations, length t.operations, s) =
        ap (λ n. undo_to ops (length t.operations) t.operations n s) it.counted
        ∙ undo_to_stop ops t.operations s in
      rw (e, it.is_active, free, active_txn, txn_savepoint)
        (record {
          txn = _;
          is_current = refl;
          is_active = refl;
          reaches = omega (arith, it.counted);
          mark = record { name = c ∷ cs; operation_count = t.operation_count };
          older = t.savepoints;
          marks = rw (str_eq_refl (c ∷ cs)) refl;
          mark_count = it.counted;
          keys = keys;
          good = g;
          left = ap (λ r. r.0) stop;
          restores =
              subst (λ u. Same ops Key Good u s) (sym (ap (λ r. r.2) stop)) (g, g, λ j h. refl);
        })

-- The rollback to a savepoint, over a store that is a map on the keys of the transaction
pub rollback_to_lem :
    {S : Type 0} (ops : StoreOps S) (Key : Bytes → Type 0) (Good : S → Type 0) (m : Manager)
    (t : Transaction) (s : S) (c : ℕ) (cs : Bytes) (m' : Manager) (s' : S)
    → IsMap ops Key Good
    → Good s
    → m.current_txn ≡ some t
    → IsTransaction t
    → HasRowKeys Key t.operations
    → has_savepoint (c ∷ cs) t.savepoints ≡ false
    → RowSteps ops Key (txn_savepoint m (some (c ∷ cs))).0 s m' s'
    → let r = txn_rollback_to_savepoint ops m' s' (c ∷ cs) in
      (r.2 ≡ true)
      × ((t' : Transaction) × (r.0.current_txn ≡ some t') × (t'.operations ≡ t.operations))
      × ((k : Bytes) → Key k → ops.kv_get r.1 k ≡ ops.kv_get s k)
unfolding txn_rollback_to_savepoint active_txn
rollback_to_lem ops Key Good m t s c cs m' s' map g e it keys free st =
    let l =
      steps-LeadsBackTo ops Key Good map (c ∷ cs) t.operations s _ s m' s'
        (set-LeadsBackTo ops Key Good m t s c cs e it free keys g) st in
    rw (l.is_current, l.is_active, l.marks, l.mark_count, active_txn, txn_rollback_to_savepoint)
      (refl, (_, refl, l.left), l.restores.2)
