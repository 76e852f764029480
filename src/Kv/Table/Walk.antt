-- ===== src/Kv/Table/Walk.antt =====
-- The probe loop of src/storage.c as a walk round the table from the key's home slot.
use native.Mathlib.Nat.{mod-eq_of_lt, mod-eq-sub-mod, mod-add-mod, mod-lt}
use inventixdb.Base.{
  ℕ, zero, suc, ◌+◌, ◌-◌, ◌%◌, ◌≤◌, ◌<◌, ◌≡◌, ◌≢◌, refl, sym, subst, ◌∙◌, ap, inl, inr, true, false,
  List, arith, Bytes, ◌==◌, ==_iff, Bool-cases, str_eq, get_or, dec_lt,
}
use inventixdb.Kv.Table.{Entry, empty_entry, Outcome, hit, vacant, full, probe, find, home}

-- The slot that the walk reaches after `d` steps.
abbrev pub slot : ℕ → ℕ → ℕ → ℕ
slot cap start d = (start + d) % cap

abbrev pub entry : List Entry → ℕ → Entry
entry es i = get_or es i empty_entry

-- The slot holds another key, so the loop passes it.
abbrev pub Busy : List Entry → Bytes → ℕ → Type 0
Busy es k i = ((entry es i).occupied ≡ true) × (str_eq (entry es i).key k ≡ false)

abbrev pub Passed : List Entry → ℕ → Bytes → ℕ → ℕ → Type 0
Passed es cap k start n = (d : ℕ) → d < n → Busy es k (slot cap start d)

-- How a walk ends.
pub data Walk (es : List Entry) (cap : ℕ) (k : Bytes) (start : ℕ) : Outcome → Type 0 where
  meets :
      (d i : ℕ)
      → d < cap
      → i ≡ slot cap start d
      → Passed es cap k start d
      → (entry es i).occupied ≡ true
      → str_eq (entry es i).key k ≡ true
      → Walk es cap k start (hit i)
  stops :
      (d i : ℕ)
      → d < cap
      → i ≡ slot cap start d
      → Passed es cap k start d
      → (entry es i).occupied ≡ false
      → Walk es cap k start (vacant i)
  circles : Passed es cap k start cap → Walk es cap k start full

-- Fewer than `cap` steps round the table do not come back to the start.
pub slot-ne : (cap h k : ℕ) → h < cap → 0 < k → k < cap → (h + k) % cap ≢ h
slot-ne cap h k hh pos hk = elim (dec_lt (h + k) cap) [
  | yes p ↦ omega (arith, mod-eq_of_lt p)
  | no p ↦ omega (
    arith,
    mod-eq-sub-mod {n = h + k} {m = cap} (omega arith),
    mod-eq_of_lt {n = h + k - cap} {m = cap} (omega arith),
  )
]

pub slot_round : (cap h : ℕ) → h < cap → (h + cap) % cap ≡ h
slot_round cap h hh = grind arith

-- One step of the walk.
slot-suc : (cap h d i : ℕ) → i ≡ slot cap h d → (i + 1) % cap ≡ slot cap h (suc d)
slot-suc cap h d i e = rw (e, mod-add-mod) (ap (λ t. t % cap) (omega arith))

Passed-suc :
    (es : List Entry) (cap : ℕ) (k : Bytes) (start n i : ℕ)
    → i ≡ slot cap start n
    → Passed es cap k start n
    → Busy es k i
    → Passed es cap k start (suc n)
Passed-suc es cap k start n i e p b d h = elim (dec_lt d n) [
  | yes lt ↦ p d lt
  | no ge ↦ let same : d ≡ n = omega arith in rw (same, ← e) b
]

-- Back at the start means that every slot was passed.
round_done :
    (cap start d i : ℕ)
    → start < cap
    → suc d ≤ cap
    → i ≡ slot cap start d
    → (i + 1) % cap ≡ start
    → suc d ≡ cap
round_done cap start d i hs hd e back = elim (dec_lt (suc d) cap) [
  | yes lt ↦
      absurd (slot-ne cap start (suc d) hs (omega arith) lt (sym (slot-suc cap start d i e) ∙ back))
  | no ge ↦ omega arith
]

not_done :
    (cap start d i : ℕ)
    → start < cap
    → d < cap
    → i ≡ slot cap start d
    → ((i + 1) % cap == start) ≡ false
    → suc d < cap
not_done cap start d i hs hd e more = elim (dec_lt (suc d) cap) [
  | yes lt ↦ lt
  | no ge ↦
      let all : suc d ≡ cap = omega arith in
      let back : (i + 1) % cap ≡ start =
        slot-suc cap start d i e ∙ ap (λ t. (start + t) % cap) all ∙ slot_round cap start hs in
      absurd (ground (arith, (==_iff ((i + 1) % cap) start).1 back))
]

pub slot_home : (cap h : ℕ) → h < cap → slot cap h 0 ≡ h
slot_home cap h hh = grind arith

-- The loop, started with `d` slots passed and fuel for the others, ends as a walk does.
probe-Walk :
    (es : List Entry) (cap : ℕ) (k : Bytes) (start fuel d i : ℕ)
    → start < cap
    → d + fuel ≡ cap
    → d < cap
    → i ≡ slot cap start d
    → Passed es cap k start d
    → Walk es cap k start (probe es cap k start fuel i)
unfolding probe
probe-Walk es cap k start zero d i hs hf hd e p = absurd (omega arith)
probe-Walk es cap k start (suc fuel) d i hs hf hd e p = elim (Bool-cases (entry es i).occupied) [
  | inr free ↦ rw free (stops d i hd e p free)
  | inl occ ↦ elim (Bool-cases (str_eq (entry es i).key k)) [
    | inl same ↦ rw (occ, same) (meets d i hd e p occ same)
    | inr other ↦
        let p' : Passed es cap k start (suc d) = Passed-suc es cap k start d i e p (occ, other) in
        elim (Bool-cases ((i + 1) % cap == start)) [
          | inl back ↦
              let all = round_done cap start d i hs hd e ((==_iff _ _).0 back) in
              rw (occ, other, back) (circles (subst (Passed es cap k start) all p'))
          | inr more ↦
              let e' = slot-suc cap start d i e in
              let hd' = not_done cap start d i hs hd e more in
              rw (occ, other, more)
                (probe-Walk es cap k start fuel (suc d) ((i + 1) % cap) hs (omega arith) hd' e' p')
        ]
  ]
]

-- With the slots of the table as fuel the loop ends, as a walk from the key's home does.
pub find-Walk :
    (es : List Entry) (cap : ℕ) (k : Bytes) → 0 < cap → Walk es cap k (home cap k) (find es cap k)
unfolding find
find-Walk es cap k h =
    probe-Walk es cap k (home cap k) cap 0 (home cap k) small (omega arith) h
      (sym (slot_home cap (home cap k) small)) (λ d lt. absurd (omega arith))
  where
    small : home cap k < cap
    small = mod-lt _ h

-- Where a walk ends, on the key's entry or a free slot, no walk passes.
module _ (es : List Entry) (cap : ℕ) (k : Bytes) (start : ℕ) where
  found_not-Busy :
      (d i : ℕ)
      → i ≡ slot cap start d
      → str_eq (entry es i).key k ≡ true
      → ¬ Busy es k (slot cap start d)
  found_not-Busy d i e same = rw (← e) (λ b. cc (b.1, same))

  free_not-Busy :
      (d i : ℕ)
      → i ≡ slot cap start d
      → (entry es i).occupied ≡ false
      → ¬ Busy es k (slot cap start d)
  free_not-Busy d i e free = rw (← e) (λ b. cc (b.0, free))

  same_slot :
      (d d' i i' : ℕ)
      → i ≡ slot cap start d
      → i' ≡ slot cap start d'
      → Passed es cap k start d
      → Passed es cap k start d'
      → ¬ Busy es k (slot cap start d)
      → ¬ Busy es k (slot cap start d')
      → i ≡ i'
  same_slot d d' i i' e e' p p' n n' = elim (dec_lt d d') [
    | yes lt ↦ absurd (n (p' d lt))
    | no ge ↦ elim (dec_lt d' d) [
      | yes lt ↦ absurd (n' (p d' lt))
      | no ge' ↦ let same : d ≡ d' = omega arith in e ∙ ap (slot cap start) same ∙ sym e'
    ]
  ]

  -- A table and a key leave a walk one end.
  pub Walk-unique : {o o' : Outcome} → Walk es cap k start o → Walk es cap k start o' → o ≡ o'
  Walk-unique (meets d i hd e p occ same) (meets d' i' hd' e' p' occ' same') =
      ap hit
        (same_slot d d' i i' e e' p p' (found_not-Busy d i e same) (found_not-Busy d' i' e' same'))
  Walk-unique (meets d i hd e p occ same) (stops d' i' hd' e' p' free) =
      let j =
        same_slot d d' i i' e e' p p' (found_not-Busy d i e same) (free_not-Busy d' i' e' free) in
      cc (ap (λ t. (entry es t).occupied) j)
  Walk-unique (meets d i hd e p occ same) (circles p') =
      absurd (found_not-Busy d i e same (p' d hd))
  Walk-unique (stops d i hd e p free) (meets d' i' hd' e' p' occ same) =
      let j =
        same_slot d d' i i' e e' p p' (free_not-Busy d i e free) (found_not-Busy d' i' e' same) in
      cc (ap (λ t. (entry es t).occupied) j)
  Walk-unique (stops d i hd e p free) (stops d' i' hd' e' p' free') =
      ap vacant
        (same_slot d d' i i' e e' p p' (free_not-Busy d i e free) (free_not-Busy d' i' e' free'))
  Walk-unique (stops d i hd e p free) (circles p') = absurd (free_not-Busy d i e free (p' d hd))
  Walk-unique (circles p) (meets d i hd e p' occ same) = absurd (found_not-Busy d i e same (p d hd))
  Walk-unique (circles p) (stops d i hd e p' free) = absurd (free_not-Busy d i e free (p d hd))
  Walk-unique (circles p) (circles p') = refl

-- The loop ends where a walk ends.
pub find_of_Walk :
    (es : List Entry) (cap : ℕ) (k : Bytes) (o : Outcome)
    → 0 < cap
    → Walk es cap k (home cap k) o
    → find es cap k ≡ o
find_of_Walk es cap k o h w = Walk-unique es cap k (home cap k) (find-Walk es cap k h) w
