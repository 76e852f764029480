-- ===== src/Mvcc/Snapshot.antt =====
-- A snapshot of src/mvcc.c shows exactly the transactions that were not running when it was taken.
use inventixdb.Base.{
  ℕ, ◌≤◌, ◌<◌, ◌≡◌, inl, inr, refl, ap, leb→le, [], ◌∷◌, none, some, Bool, true, false, not, ◌&&◌,
  ◌||◌, Bool-cases, ltb, leb, ltb→lt, lt→ltb, le→ltb, ◌==◌, ==_iff, arith, if◌then◌else◌,
}
use inventixdb.Mvcc.State.{Slots, MvccManager, is_active_state}
use inventixdb.Mvcc.Visible.{scan_active, mvcc_take_snapshot, was_active, mvcc_is_visible}

-- Another transaction than `self` with the identifier `id` is active in a slot.
unfoldable pub runs : ℕ → ℕ → Slots → Bool
runs self id [] = false
runs self id (none ∷ rest) = runs self id rest
runs self id (some t ∷ rest) =
    ((is_active_state t.state && not (t.txn_id == self)) && (t.txn_id == id)) || runs self id rest

abbrev lowest : ℕ → ℕ → ℕ
lowest a b = if ltb a b then a else b

lowest_le : (a b : ℕ) → (lowest a b ≤ a) × (lowest a b ≤ b)
lowest_le a b = elim (Bool-cases (ltb a b)) [
  | inl less ↦ rw less (omega arith, omega (arith, ltb→lt a b less))
  | inr more ↦ rw more (ground arith, omega arith)
]

first_or {ℓ} : {P : Type ℓ} (a b : Bool) → (a ≡ true → P) → (b ≡ true → P) → (a || b) ≡ true → P
first_or true b f g e = f refl
first_or false b f g e = g e

not_true : (b : Bool) → ¬ (b ≡ true) → b ≡ false
not_true true h = absurd (h refl)
not_true false h = refl

-- What the loop returns: the identifiers of the running transactions, and a bound below them.
record Scanned (self xmin id : ℕ) (slots : Slots) : Type 0 where
  lowered : (scan_active self xmin slots).0 ≤ xmin
  listed : was_active id (scan_active self xmin slots).1 ≡ runs self id slots
  bounded : runs self id slots ≡ true → (scan_active self xmin slots).0 ≤ id

scan-Scanned : (self xmin id : ℕ) (slots : Slots) → Scanned self xmin id slots
unfolding scan_active was_active runs
scan-Scanned self xmin id [] = record {
  lowered = omega arith;
  listed = refl;
  bounded = λ e. absurd (cc e);
}
scan-Scanned self xmin id (none ∷ rest) =
    let s = scan-Scanned self xmin id rest in
    record { lowered = s.lowered; listed = s.listed; bounded = s.bounded }
scan-Scanned self xmin id (some t ∷ rest) =
    elim (Bool-cases (is_active_state t.state && not (t.txn_id == self))) [
      | inl counts ↦
          let s = scan-Scanned self (lowest t.txn_id xmin) id rest in
          record {
            lowered = rw counts (omega (arith, s.lowered, lowest_le t.txn_id xmin));
            listed = rw counts (ap (λ b. (t.txn_id == id) || b) s.listed);
            bounded = rw counts (
                first_or (t.txn_id == id) (runs self id rest)
                  (λ e. omega (arith, s.lowered, lowest_le t.txn_id xmin, (==_iff t.txn_id id).0 e))
                  s.bounded);
          }
      | inr skipped ↦
          let s = scan-Scanned self xmin id rest in
          record {
            lowered = rw skipped s.lowered;
            listed = rw skipped s.listed;
            bounded = rw skipped s.bounded;
          }
    ]

-- A snapshot that `self` takes shows a transaction exactly when its identifier was given out before
-- and no other active transaction has it; the comparison with the smallest active identifier, which
-- the code makes first, changes nothing.
pub is_visible-take_snapshot :
    (m : MvccManager) (self id : ℕ)
    → mvcc_is_visible id (some (mvcc_take_snapshot m self))
      ≡ (ltb id m.next_txn_id && not (runs self id m.active_txns))
unfolding mvcc_is_visible mvcc_take_snapshot
is_visible-take_snapshot m self id =
    let s = scan-Scanned self m.next_txn_id id m.active_txns in
    elim (Bool-cases (ltb id (scan_active self m.next_txn_id m.active_txns).0)) [
      | inl below ↦
          let older : id < (scan_active self m.next_txn_id m.active_txns).0 = ltb→lt _ _ below in
          let idle : runs self id m.active_txns ≡ false =
            not_true _ (λ e. omega (arith, older, s.bounded e)) in
          rw (below, idle, lt→ltb id m.next_txn_id (omega (arith, older, s.lowered))) refl
      | inr above ↦ elim (Bool-cases (leb m.next_txn_id id)) [
        | inl later ↦ rw (above, later, le→ltb id m.next_txn_id (leb→le _ _ later)) refl
        | inr known ↦
            let given : ltb id m.next_txn_id ≡ true = ground arith in
            rw (above, known, given, s.listed) refl
      ]
    ]
