-- ===== src/Mvcc/Slots.antt =====
-- The slots of the active transactions of src/mvcc.c under registering, changing and freeing.
use inventixdb.Base.{
  ℕ, ◌+◌, ◌<◌, ◌≤◌, ◌≡◌, ◌≢◌, inl, inr, refl, sym, ap, ◌∙◌, [], ◌∷◌, Option, none, some, true,
  false, Bool-cases, ◌==◌, ==_iff, arith, if◌then◌else◌,
}
use inventixdb.Mvcc.State.{
  TransactionDescriptor, Slots, MvccManager, lookup, register, has_free, change_txn, unregister,
}

-- No two slots have the same identifier.
abbrev pub Unique : Slots → Type 0
Unique [] = Unit
Unique (none ∷ rest) = Unique rest
Unique (some t ∷ rest) = (lookup t.txn_id rest ≡ none) × Unique rest

abbrev pub Under : ℕ → Slots → Type 0
Under n [] = Unit
Under n (none ∷ rest) = Under n rest
Under n (some t ∷ rest) = (t.txn_id < n) × Under n rest

abbrev pub taken : Slots → ℕ
taken [] = 0
taken (none ∷ rest) = taken rest
taken (some t ∷ rest) = taken rest + 1

-- The active transactions have different identifiers, all given out, and are counted.
pub record IsMvcc (m : MvccManager) : Type 0 where
  pub unique : Unique m.active_txns
  pub given : Under m.next_txn_id m.active_txns
  pub counted : m.active_count ≡ taken m.active_txns

abbrev pub KeepsId : (TransactionDescriptor → TransactionDescriptor) → Type 0
KeepsId f = (t : TransactionDescriptor) → (f t).txn_id ≡ t.txn_id

pub unregister-change :
    (id : ℕ) (f : TransactionDescriptor → TransactionDescriptor) (slots : Slots)
    → KeepsId f
    → unregister id (change_txn id f slots) ≡ unregister id slots
unfolding unregister change_txn
unregister-change id f [] h = refl
unregister-change id f (none ∷ rest) h = ap (λ s. none ∷ s) (unregister-change id f rest h)
unregister-change id f (some t ∷ rest) h = elim (Bool-cases (t.txn_id == id)) [
  | inl here ↦
      let same : ((f t).txn_id == id) ≡ true = ap (λ i. i == id) (h t) ∙ here in
      rw (here, same) refl
  | inr other ↦ rw (other, other) (ap (λ s. some t ∷ s) (unregister-change id f rest h))
]

pub lookup-change :
    (id : ℕ) (f : TransactionDescriptor → TransactionDescriptor) (slots : Slots)
    (t : TransactionDescriptor)
    → KeepsId f
    → lookup id slots ≡ some t
    → lookup id (change_txn id f slots) ≡ some (f t)
unfolding lookup change_txn
lookup-change id f [] t h e = absurd (cc e)
lookup-change id f (none ∷ rest) t h e = lookup-change id f rest t h e
lookup-change id f (some u ∷ rest) t h e = elim (Bool-cases (u.txn_id == id)) [
  | inl here ↦
      let same : ((f u).txn_id == id) ≡ true = ap (λ i. i == id) (h u) ∙ here in
      rw (here, same) (ap (λ o. map_some f o) (rw here at e))
  | inr other ↦ rw (other, other) (lookup-change id f rest t h (rw other at e))
]
  where
    map_some :
        (TransactionDescriptor → TransactionDescriptor)
        → Option TransactionDescriptor
        → Option TransactionDescriptor
    map_some g none = none
    map_some g (some u) = some (g u)

pub lookup-unregister-none :
    (id j : ℕ) (slots : Slots) → lookup j slots ≡ none → lookup j (unregister id slots) ≡ none
unfolding lookup unregister
lookup-unregister-none id j [] e = refl
lookup-unregister-none id j (none ∷ rest) e = lookup-unregister-none id j rest e
lookup-unregister-none id j (some t ∷ rest) e = elim (Bool-cases (t.txn_id == j)) [
  | inl here ↦ absurd (cc (rw here at e))
  | inr other ↦ elim (Bool-cases (t.txn_id == id)) [
    | inl gone ↦ rw gone (rw other at e)
    | inr kept ↦ rw (kept, other) (lookup-unregister-none id j rest (rw other at e))
  ]
]

pub lookup-unregister_self :
    (id : ℕ) (slots : Slots) → Unique slots → lookup id (unregister id slots) ≡ none
unfolding lookup unregister
lookup-unregister_self id [] u = refl
lookup-unregister_self id (none ∷ rest) u = lookup-unregister_self id rest u
lookup-unregister_self id (some t ∷ rest) u = elim (Bool-cases (t.txn_id == id)) [
  | inl here ↦ rw here (ap (λ i. lookup i rest) (sym ((==_iff t.txn_id id).0 here)) ∙ u.0)
  | inr other ↦ rw (other, other) (lookup-unregister_self id rest u.1)
]

pub lookup-unregister_other :
    (id j : ℕ) (slots : Slots) → id ≢ j → lookup j (unregister id slots) ≡ lookup j slots
unfolding lookup unregister
lookup-unregister_other id j [] ne = refl
lookup-unregister_other id j (none ∷ rest) ne = lookup-unregister_other id j rest ne
lookup-unregister_other id j (some t ∷ rest) ne = elim (Bool-cases (t.txn_id == id)) [
  | inl here ↦ let apart : (t.txn_id == j) ≡ false = ground arith in rw (here, apart) refl
  | inr other ↦ rw other (elim (Bool-cases (t.txn_id == j)) [
    | inl found ↦ rw found refl
    | inr further ↦ rw further (lookup-unregister_other id j rest ne)
  ])
]

pub unregister-Unique : (id : ℕ) (slots : Slots) → Unique slots → Unique (unregister id slots)
unfolding unregister
unregister-Unique id [] u = tt
unregister-Unique id (none ∷ rest) u = unregister-Unique id rest u
unregister-Unique id (some t ∷ rest) u = elim (Bool-cases (t.txn_id == id)) [
  | inl here ↦ rw here u.1
  | inr other ↦
      rw other (lookup-unregister-none id t.txn_id rest u.0, unregister-Unique id rest u.1)
]

pub unregister-Under : (id n : ℕ) (slots : Slots) → Under n slots → Under n (unregister id slots)
unfolding unregister
unregister-Under id n [] u = tt
unregister-Under id n (none ∷ rest) u = unregister-Under id n rest u
unregister-Under id n (some t ∷ rest) u = elim (Bool-cases (t.txn_id == id)) [
  | inl here ↦ rw here u.1
  | inr other ↦ rw other (u.0, unregister-Under id n rest u.1)
]

pub taken-unregister :
    (id : ℕ) (slots : Slots) (t : TransactionDescriptor)
    → lookup id slots ≡ some t
    → taken slots ≡ taken (unregister id slots) + 1
unfolding lookup unregister
taken-unregister id [] t e = absurd (cc e)
taken-unregister id (none ∷ rest) t e = taken-unregister id rest t e
taken-unregister id (some u ∷ rest) t e = elim (Bool-cases (u.txn_id == id)) [
  | inl here ↦ rw here refl
  | inr other ↦ rw other (ap (λ n. n + 1) (taken-unregister id rest t (rw other at e)))
]

Under-mono : (n k : ℕ) (slots : Slots) → n ≤ k → Under n slots → Under k slots
Under-mono n k [] h u = tt
Under-mono n k (none ∷ rest) h u = Under-mono n k rest h u
Under-mono n k (some t ∷ rest) h u = (omega (arith, u.0), Under-mono n k rest h u.1)

-- An identifier that was not given out yet is in no slot.
lookup_above : (n j : ℕ) (slots : Slots) → Under n slots → n ≤ j → lookup j slots ≡ none
unfolding lookup
lookup_above n j [] u h = refl
lookup_above n j (none ∷ rest) u h = lookup_above n j rest u h
lookup_above n j (some t ∷ rest) u h =
    let apart : (t.txn_id == j) ≡ false = ground (arith, u.0) in
    rw apart (lookup_above n j rest u.1 h)

pub register-Under :
    (n k : ℕ) (t : TransactionDescriptor) (slots : Slots)
    → n ≤ k
    → t.txn_id < k
    → Under n slots
    → Under k (register t slots)
unfolding register
register-Under n k t [] h l u = tt
register-Under n k t (none ∷ rest) h l u = (l, Under-mono n k rest h u)
register-Under n k t (some v ∷ rest) h l u = (omega (arith, u.0), register-Under n k t rest h l u.1)

pub lookup-register_other :
    (j : ℕ) (t : TransactionDescriptor) (slots : Slots)
    → t.txn_id ≢ j
    → lookup j (register t slots) ≡ lookup j slots
unfolding lookup register
lookup-register_other j t [] ne = refl
lookup-register_other j t (none ∷ rest) ne =
    let apart : (t.txn_id == j) ≡ false = ground arith in rw apart refl
lookup-register_other j t (some v ∷ rest) ne = elim (Bool-cases (v.txn_id == j)) [
  | inl found ↦ rw found refl
  | inr further ↦ rw further (lookup-register_other j t rest ne)
]

pub register-Unique :
    (n : ℕ) (t : TransactionDescriptor) (slots : Slots)
    → Unique slots
    → Under n slots
    → n ≤ t.txn_id
    → Unique (register t slots)
unfolding register
register-Unique n t [] u l h = tt
register-Unique n t (none ∷ rest) u l h = (lookup_above n t.txn_id rest l h, u)
register-Unique n t (some v ∷ rest) u l h = (
  lookup-register_other v.txn_id t rest (λ e. omega (arith, l.0)) ∙ u.0,
  register-Unique n t rest u.1 l.1 h,
)

pub taken-register :
    (t : TransactionDescriptor) (slots : Slots) (n : ℕ)
    → n ≡ taken slots
    → (if has_free slots then n + 1 else n) ≡ taken (register t slots)
unfolding register has_free
taken-register t [] n e = e
taken-register t (none ∷ rest) n e = omega (arith, e)
taken-register t (some v ∷ rest) n e = elim (Bool-cases (has_free rest)) [
  | inl free ↦ rw free (omega (arith, e, rw free at (taken-register t rest (taken rest) refl)))
  | inr full ↦ rw full (omega (arith, e, rw full at (taken-register t rest (taken rest) refl)))
]

pub lookup-register_self :
    (n : ℕ) (t : TransactionDescriptor) (slots : Slots)
    → Under n slots
    → n ≤ t.txn_id
    → has_free slots ≡ true
    → lookup t.txn_id (register t slots) ≡ some t
unfolding lookup register has_free
lookup-register_self n t [] l h f = absurd (cc f)
lookup-register_self n t (none ∷ rest) l h f = rw ((==_iff t.txn_id t.txn_id).1 refl) refl
lookup-register_self n t (some v ∷ rest) l h f =
    let apart : (v.txn_id == t.txn_id) ≡ false = ground (arith, l.0) in
    rw apart (lookup-register_self n t rest l.1 h f)
