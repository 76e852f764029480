-- ===== src/Engine/Lz4/Match.antt =====
-- Matches in src/storage_engine.c: what `compress_lz4` finds, and what `decompress_lz4` copies.
use inventixdb.Base.{
  ℕ, zero, suc, ◌+◌, ◌-◌, ◌≤◌, ◌≡◌, ◌⊎◌, refl, sym, ap, ◌∙◌, inl, inr, [], ◌∷◌, ◌++◌, true, false,
  arith, Bytes, Bool-cases, ltb, leb, ◌==◌, ◌&&◌, ◌||◌, ==_iff, length, take, take-drop_append,
  length-drop_sub, get_or, append-nil, append_assoc, length-append,
}
use inventixdb.Engine.Lz4.{common, best_match, window, find_match, copied_byte, copy}

-- The bytes counted are there on both sides, and equal.
common_lem :
    (budget : ℕ) (xs ys : Bytes)
    → (common budget xs ys ≤ budget)
      × (common budget xs ys ≤ length xs)
      × (common budget xs ys ≤ length ys)
      × (take (common budget xs ys) xs ≡ take (common budget xs ys) ys)
unfolding common
common_lem zero xs ys = (omega arith, omega arith, omega arith, refl)
common_lem (suc budget) [] ys = (omega arith, omega arith, omega arith, refl)
common_lem (suc budget) (x ∷ xs) [] = (omega arith, omega arith, omega arith, refl)
common_lem (suc budget) (x ∷ xs) (y ∷ ys) = elim (Bool-cases (x == y)) [
  | inl same ↦
      let r = common_lem budget xs ys in
      let next : common budget xs ys + 1 ≡ suc (common budget xs ys) = omega arith in
      let head : x ≡ y = (==_iff x y).0 same in
      rw (same, next)
        (
          omega (arith, r.0),
          omega (arith, r.1),
          omega (arith, r.2),
          ap (λ t. x ∷ t) r.3 ∙ ap (λ c. c ∷ take (common budget xs ys) ys) head,
        )
  | inr other ↦ rw other (omega arith, omega arith, omega arith, refl)
]

-- A match of `n` bytes at `offset`: the bytes ahead begin with bytes of the past, all of which lie
-- before the end of the past.
pub record IsMatch (past ahead : Bytes) (n offset : ℕ) : Type 0 where
  pub before : Bytes
  pub source : Bytes
  pub splits : past ≡ before ++ source
  pub offset_is : offset ≡ length source
  pub near : length source ≤ 255
  pub short : n ≤ 255
  pub inside : n ≤ length source
  pub within : n ≤ length ahead
  pub agrees : take n source ≡ take n ahead

abbrev Found : Bytes → Bytes → ℕ × ℕ → Type 0
Found past ahead found = (found.0 ≡ 0) ⊎ IsMatch past ahead found.0 found.1

best_match-Found :
    (past before source ahead : Bytes) (found : ℕ × ℕ)
    → past ≡ before ++ source
    → length source ≤ 255
    → Found past ahead found
    → Found past ahead (best_match source ahead found)
unfolding best_match
best_match-Found past before [] ahead found e h f = f
best_match-Found past before (x ∷ xs) ahead found e h f =
    let c = common_lem 255 (x ∷ xs) ahead in
    let here : IsMatch past ahead (common 255 (x ∷ xs) ahead) (length (x ∷ xs)) = record {
      before = before;
      source = x ∷ xs;
      splits = e;
      offset_is = refl;
      near = h;
      short = c.0;
      inside = c.1;
      within = c.2;
      agrees = c.3;
    } in
    let next : past ≡ (before ++ x ∷ []) ++ xs = e ∙ sym (append_assoc before (x ∷ []) xs) in
    elim (Bool-cases
      (leb 4 (common 255 (x ∷ xs) ahead) && ltb found.0 (common 255 (x ∷ xs) ahead))) [
        | inl better ↦
            rw (better, best_match)
              (best_match-Found past (before ++ x ∷ []) xs ahead _ next (omega (arith, h))
                (inr here))
        | inr worse ↦
            rw (worse, best_match)
              (best_match-Found past (before ++ x ∷ []) xs ahead found next (omega (arith, h)) f)
      ]

pub find_match-Found :
    (past ahead : Bytes)
    → ((find_match past ahead).0 ≡ 0)
      ⊎ IsMatch past ahead (find_match past ahead).0 (find_match past ahead).1
unfolding window
find_match-Found past ahead =
    best_match-Found past (take (length past - 255) past) (window past) ahead (0, 0)
      (take-drop_append (length past - 255) past)
      (omega (arith, length-drop_sub (length past - 255) past)) (inl refl)

get_or-append : (xs ys : Bytes) (y d : ℕ) → get_or (xs ++ y ∷ ys) (length xs) d ≡ y
get_or-append [] ys y d = refl
get_or-append (x ∷ xs) ys y d = get_or-append xs ys y d

take-append_le : (n : ℕ) (xs ys : Bytes) → n ≤ length xs → take n (xs ++ ys) ≡ take n xs
take-append_le zero xs ys h = refl
take-append_le (suc n) [] ys h = absurd (omega arith)
take-append_le (suc n) (x ∷ xs) ys h = ap (λ t. x ∷ t) (take-append_le n xs ys (omega arith))

-- A byte that moves from the front of the source to its end
again :
    (before : Bytes) (y : ℕ) (source rest : Bytes)
    → (before ++ y ∷ source) ++ y ∷ rest ≡ ((before ++ y ∷ []) ++ (source ++ y ∷ [])) ++ rest
again [] y source rest = ap (λ t. y ∷ t) (sym (append_assoc source (y ∷ []) rest))
again (x ∷ before) y source rest = ap (λ t. x ∷ t) (again before y source rest)

-- Copying at most `length source` bytes from that far back appends the first bytes of the source.
pub copy-append :
    (dst : ℕ → ℕ) (size n : ℕ) (before source : Bytes)
    → n ≤ length source
    → length before + length source + n ≤ size
    → copy dst size n (length source) (before ++ source) ≡ (before ++ source) ++ take n source
unfolding copy copied_byte
copy-append dst size zero before source h k = sym (append-nil (before ++ source))
copy-append dst size (suc n) before [] h k = absurd (omega arith)
copy-append dst size (suc n) before (y ∷ source) h k =
    let total = length-append before (y ∷ source) in
    let fits : ltb (length (before ++ y ∷ source)) size ≡ true = ground (arith, total) in
    let far : ((suc (length source) == 0)
          || ltb (length (before ++ y ∷ source)) (suc (length source)))
        ≡ false =
      ground (arith, total) in
    let longer : length (source ++ y ∷ []) ≡ suc (length source) =
      omega (arith, length-append source (y ∷ [])) in
    let place : length (before ++ y ∷ source) - suc (length source) ≡ length before =
      omega (arith, total) in
    rw (fits, far, place, get_or-append before source y 0)
      (ap (copy dst size n (suc (length source)))
          (again before y source [] ∙ append-nil ((before ++ y ∷ []) ++ (source ++ y ∷ [])))
        ∙ ap (λ o. copy dst size n o ((before ++ y ∷ []) ++ (source ++ y ∷ []))) (sym longer)
        ∙ copy-append dst size n (before ++ y ∷ []) (source ++ y ∷ []) (omega (arith, longer))
            (omega (arith, longer, length-append before (y ∷ [])))
        ∙ ap (λ t. ((before ++ y ∷ []) ++ (source ++ y ∷ [])) ++ t)
            (take-append_le n source (y ∷ []) (omega arith))
        ∙ sym (again before y source (take n source)))
