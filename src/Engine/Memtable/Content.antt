-- ===== src/Engine/Memtable/Content.antt =====
-- Sorted lists of entries (src/storage_engine.c), insertion into them and what they show under a key.
use inventixdb.Base.{
  ◌≡◌, ◌⊎◌, inl, inr, refl, sym, ap, ◌∙◌, List, [], ◌∷◌, ◌++◌, Option, none, some, false,
  Bool-cases, Bytes, str_eq, str_eq_iff, str_eq_refl, All, if◌then◌else◌,
}
use Prim.Native.Nat.{Ordering}
use inventixdb.Engine.Memtable.{strcmp, LsmEntry}
use inventixdb.Engine.Memtable.Order.{
  Below, eq_of_strcmp, Below-of_gt, gt_of_Below, Below-trans, strcmp-str_eq,
}

unfoldable pub first : Bytes → List LsmEntry → Option LsmEntry
first k [] = none
first k (e ∷ es) = if str_eq e.key k then some e else first k es

-- The entry goes to its place; one with the same key is replaced.
unfoldable pub insert_sorted : LsmEntry → List LsmEntry → List LsmEntry
insert_sorted new [] = new ∷ []
insert_sorted new (e ∷ es) =
    let rest = insert_sorted new es in
    elim (strcmp new.key e.key) [
      | Ordering.lt ↦ new ∷ e ∷ es
      | Ordering.gt ↦ e ∷ rest
      | Ordering.eq ↦ record new { key = e.key } ∷ es
    ]

abbrev pub AllAbove : Bytes → List LsmEntry → Type 0
AllAbove k = All (λ e. Below k e.key)

abbrev pub AllUnder : Bytes → List LsmEntry → Type 0
AllUnder k = All (λ e. Below e.key k)

abbrev pub Sorted : List LsmEntry → Type 0
Sorted [] = Unit
Sorted (e ∷ es) = AllAbove e.key es × Sorted es

pub Ordering-cases : (o : Ordering) → (o ≡ Ordering.lt) ⊎ ((o ≡ Ordering.gt) ⊎ (o ≡ Ordering.eq))
Ordering-cases Ordering.lt = inl refl
Ordering-cases Ordering.gt = inr (inl refl)
Ordering-cases Ordering.eq = inr (inr refl)

-- A sorted list split at one of its entries
pub record Split (xs : List LsmEntry) (e : LsmEntry) (ys : List LsmEntry) : Type 0 where
  pub left : Sorted xs
  pub under : AllUnder e.key xs
  pub above : AllAbove e.key ys
  pub right : Sorted ys

AllAbove-append :
    (k : Bytes) (xs : List LsmEntry) (e : LsmEntry) (ys : List LsmEntry)
    → AllAbove k (xs ++ e ∷ ys)
    → AllAbove k xs × Below k e.key
AllAbove-append k [] e ys h = (tt, h.0)
AllAbove-append k (x ∷ xs) e ys h = let r = AllAbove-append k xs e ys h.1 in ((h.0, r.0), r.1)

pub Sorted-Split :
    (xs : List LsmEntry) (e : LsmEntry) (ys : List LsmEntry) → Sorted (xs ++ e ∷ ys) → Split xs e ys
Sorted-Split [] e ys h = record { left = tt; under = tt; above = h.0; right = h.1 }
Sorted-Split (x ∷ xs) e ys h =
    let s = Sorted-Split xs e ys h.1 in
    let a = AllAbove-append x.key xs e ys h.0 in
    record { left = (a.0, s.left); under = (a.1, s.under); above = s.above; right = s.right }

pub AllUnder-trans : (k j : Bytes) (xs : List LsmEntry) → AllUnder k xs → Below k j → AllUnder j xs
AllUnder-trans k j [] h b = tt
AllUnder-trans k j (x ∷ xs) h b = (Below-trans x.key k j h.0 b, AllUnder-trans k j xs h.1 b)

pub AllAbove-trans : (k j : Bytes) (xs : List LsmEntry) → Below j k → AllAbove k xs → AllAbove j xs
AllAbove-trans k j [] b h = tt
AllAbove-trans k j (x ∷ xs) b h = (Below-trans j k x.key b h.0, AllAbove-trans k j xs b h.1)

-- Insertion before, behind and at an entry
pub insert_left :
    (new : LsmEntry) (xs : List LsmEntry) (e : LsmEntry) (ys : List LsmEntry)
    → Below new.key e.key
    → insert_sorted new (xs ++ e ∷ ys) ≡ insert_sorted new xs ++ e ∷ ys
unfolding insert_sorted
insert_left new [] e ys b = rw (b, insert_sorted) refl
insert_left new (x ∷ xs) e ys b = elim (Ordering-cases (strcmp new.key x.key)) [
  | inl less ↦ rw (less, insert_sorted) refl
  | inr (inl more) ↦ rw (more, insert_sorted) (ap (λ t. x ∷ t) (insert_left new xs e ys b))
  | inr (inr same) ↦ rw (same, insert_sorted) refl
]

pub insert_past :
    (new : LsmEntry) (xs ys : List LsmEntry)
    → AllUnder new.key xs
    → insert_sorted new (xs ++ ys) ≡ xs ++ insert_sorted new ys
unfolding insert_sorted
insert_past new [] ys u = refl
insert_past new (x ∷ xs) ys u =
    let more = gt_of_Below x.key new.key u.0 in
    rw (more, insert_sorted) (ap (λ t. x ∷ t) (insert_past new xs ys u.1))

AllAbove-insert :
    (k : Bytes) (new : LsmEntry) (xs : List LsmEntry)
    → Below k new.key
    → AllAbove k xs
    → AllAbove k (insert_sorted new xs)
unfolding insert_sorted
AllAbove-insert k new [] b h = (b, tt)
AllAbove-insert k new (x ∷ xs) b h = elim (Ordering-cases (strcmp new.key x.key)) [
  | inl less ↦ rw (less, insert_sorted) (b, h)
  | inr (inl more) ↦ rw (more, insert_sorted) (h.0, AllAbove-insert k new xs b h.1)
  | inr (inr same) ↦ rw (same, insert_sorted) (h.0, h.1)
]

pub insert_sorted-Sorted :
    (new : LsmEntry) (xs : List LsmEntry) → Sorted xs → Sorted (insert_sorted new xs)
unfolding insert_sorted
insert_sorted-Sorted new [] s = (tt, tt)
insert_sorted-Sorted new (x ∷ xs) s = elim (Ordering-cases (strcmp new.key x.key)) [
  | inl less ↦ rw (less, insert_sorted) ((less, AllAbove-trans x.key new.key xs less s.0), s)
  | inr (inl more) ↦
      rw (more, insert_sorted)
        (
          AllAbove-insert x.key new xs (Below-of_gt new.key x.key more) s.0,
          insert_sorted-Sorted new xs s.1,
        )
  | inr (inr same) ↦ rw (same, insert_sorted) s
]

-- The list with a new entry shows it under its key, and under the other keys what it showed before.
pub first-insert_sorted :
    (new : LsmEntry) (xs : List LsmEntry) (j : Bytes)
    → first j (insert_sorted new xs) ≡ (if str_eq new.key j then some new else first j xs)
unfolding first insert_sorted
first-insert_sorted new [] j = refl
first-insert_sorted new (x ∷ xs) j = elim (Ordering-cases (strcmp new.key x.key)) [
  | inl less ↦ rw (less, insert_sorted) refl
  | inr (inl more) ↦ elim (Bool-cases (str_eq x.key j)) [
    | inl here ↦
        let at : x.key ≡ j = (str_eq_iff x.key j).0 here in
        let apart : str_eq new.key j ≡ false =
          ap (str_eq new.key) (sym at)
          ∙ strcmp-str_eq x.key new.key (Below-of_gt new.key x.key more) in
        rw (more, here, apart, insert_sorted) refl
    | inr other ↦ rw (more, other, insert_sorted) (first-insert_sorted new xs j)
  ]
  | inr (inr same) ↦
      let k : new.key ≡ x.key = eq_of_strcmp new.key x.key same in
      let whole : record new { key = x.key } ≡ new = ap (λ q. record new { key = q }) (sym k) in
      let test : str_eq x.key j ≡ str_eq new.key j = ap (λ q. str_eq q j) (sym k) in
      elim (Bool-cases (str_eq new.key j)) [
        | inl here ↦ rw (same, test, here, insert_sorted) (ap some whole)
        | inr other ↦ rw (same, test, other, insert_sorted) refl
      ]
]

pub first_left :
    (k : Bytes) (xs : List LsmEntry) (e : LsmEntry) (ys : List LsmEntry)
    → Below k e.key
    → AllAbove e.key ys
    → first k (xs ++ e ∷ ys) ≡ first k xs
unfolding first
first_left k [] e ys b h =
    rw (strcmp-str_eq k e.key b) (none_above k ys (AllAbove-trans e.key k ys b h))
  where
    none_above : (q : Bytes) (zs : List LsmEntry) → AllAbove q zs → first q zs ≡ none
    none_above q [] a = refl
    none_above q (z ∷ zs) a = rw (strcmp-str_eq q z.key a.0) (none_above q zs a.1)
first_left k (x ∷ xs) e ys b h =
    ap (λ o. if str_eq x.key k then some x else o) (first_left k xs e ys b h)

str_eq_sym : (a b : Bytes) → str_eq a b ≡ false → str_eq b a ≡ false
str_eq_sym a b h = elim (Bool-cases (str_eq b a)) [
  | inl same ↦
      let e : b ≡ a = (str_eq_iff b a).0 same in
      absurd (cc (sym h ∙ ap (λ q. str_eq q b) (sym e) ∙ str_eq_refl b))
  | inr differs ↦ differs
]

pub first_past :
    (k : Bytes) (xs ys : List LsmEntry) → AllUnder k xs → first k (xs ++ ys) ≡ first k ys
unfolding first
first_past k [] ys u = refl
first_past k (x ∷ xs) ys u =
    rw (str_eq_sym k x.key (strcmp-str_eq x.key k u.0)) (first_past k xs ys u.1)
