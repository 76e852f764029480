-- ===== src/Engine/Memtable/Order.antt =====
-- `strcmp` is a total order of byte strings.
use inventixdb.Base.{◌≡◌, refl, [], ◌∷◌, arith, Bytes, false, str_eq}
use Prim.Native.Nat.{Ordering}
use inventixdb.Engine.Memtable.{strcmp}

abbrev pub Below : Bytes → Bytes → Type 0
Below a b = strcmp a b ≡ Ordering.lt

pub strcmp_refl : (a : Bytes) → strcmp a a ≡ Ordering.eq
unfolding strcmp
strcmp_refl [] = refl
strcmp_refl (x ∷ xs) = ground (arith, strcmp_refl xs)

pub eq_of_strcmp : (a b : Bytes) → strcmp a b ≡ Ordering.eq → a ≡ b
unfolding strcmp
eq_of_strcmp [] [] h = refl
eq_of_strcmp [] (y ∷ ys) h = cc h
eq_of_strcmp (x ∷ xs) [] h = cc h
eq_of_strcmp (x ∷ xs) (y ∷ ys) h = ground (arith, eq_of_strcmp xs ys)

-- The sign turns round with the arguments.
pub Below-of_gt : (a b : Bytes) → strcmp a b ≡ Ordering.gt → Below b a
unfolding strcmp
Below-of_gt [] [] h = cc h
Below-of_gt [] (y ∷ ys) h = cc h
Below-of_gt (x ∷ xs) [] h = refl
Below-of_gt (x ∷ xs) (y ∷ ys) h = ground (arith, Below-of_gt xs ys)

pub gt_of_Below : (a b : Bytes) → Below a b → strcmp b a ≡ Ordering.gt
unfolding strcmp
gt_of_Below [] [] h = absurd (cc h)
gt_of_Below [] (y ∷ ys) h = refl
gt_of_Below (x ∷ xs) [] h = absurd (cc h)
gt_of_Below (x ∷ xs) (y ∷ ys) h = ground (arith, gt_of_Below xs ys)

pub Below-trans : (a b c : Bytes) → Below a b → Below b c → Below a c
unfolding strcmp
Below-trans [] [] c h k = absurd (cc h)
Below-trans [] (y ∷ ys) [] h k = absurd (cc k)
Below-trans [] (y ∷ ys) (z ∷ zs) h k = refl
Below-trans (x ∷ xs) [] c h k = absurd (cc h)
Below-trans (x ∷ xs) (y ∷ ys) [] h k = absurd (cc k)
Below-trans (x ∷ xs) (y ∷ ys) (z ∷ zs) h k = ground (arith, Below-trans xs ys zs)

pub strcmp-str_eq : (a b : Bytes) → strcmp a b ≡ Ordering.lt → str_eq b a ≡ false
unfolding strcmp str_eq
strcmp-str_eq [] [] h = absurd (cc h)
strcmp-str_eq [] (y ∷ ys) h = refl
strcmp-str_eq (x ∷ xs) [] h = absurd (cc h)
strcmp-str_eq (x ∷ xs) (y ∷ ys) h = ground (arith, strcmp-str_eq xs ys)
