-- ===== src/Base/Read.antt =====
-- Reading fields from the front of a buffer or a file.
use Prim.Native.Nat.{ℕ, ◌<◌, ◌^◌}
use mathlib.Core.Logic.{◌≢◌}
use mathlib.Core.Path.{◌≡◌, refl, sym, ap, ◌∙◌}
use mathlib.Core.Bool.{true}
use mathlib.Core.List.{[], ◌∷◌, ◌++◌}
use mathlib.Core.Option.{Option, none, some}
use native.Mathlib.Omega.{arith}
use inventixdb.Base.Tests.{◌==◌, leb, if◌then◌else◌}
use inventixdb.Base.Lists.{
  All, length, length-append, take, drop, take_append_length, drop_append_length,
}
use inventixdb.Base.Text.{Bytes, le_bytes, length-le_bytes}

infixl 5 ◌>>=◌
abbrev pub ◌>>=◌ {ℓ κ} : {A : Type ℓ} {B : Type κ} → Option A → (A → Option B) → Option B
none >>= f = none
some a >>= f = f a

-- `fread` of `n` bytes; `none` is a short read.
unfoldable pub fread : ℕ → Bytes → Option (Bytes × Bytes)
fread n bs = if leb n (length bs) then some (take n bs, drop n bs) else none

pub fread_append : (xs ys : Bytes) → fread (length xs) (xs ++ ys) ≡ some (xs, ys)
unfolding fread
fread_append xs ys =
    let fits : leb (length xs) (length (xs ++ ys)) ≡ true = ground (arith, length-append xs ys) in
    rw (fits, take_append_length xs ys, drop_append_length xs ys)

pub fread-le_bytes : (w x : ℕ) (ys : Bytes) → fread w (le_bytes w x ++ ys) ≡ some (le_bytes w x, ys)
fread-le_bytes w x ys =
    ap (λ n. fread n (le_bytes w x ++ ys)) (sym (length-le_bytes w x))
    ∙ fread_append (le_bytes w x) ys

pub fread_short : (n : ℕ) (bs : Bytes) → length bs < n → fread n bs ≡ none
unfolding fread
fread_short n bs h = ground arith

-- A buffer with a final NUL, read as a C string.
unfoldable pub c_string : Bytes → Bytes
c_string [] = []
c_string (c ∷ s) = if c == 0 then [] else c ∷ c_string s

-- A C string whose length fits an `int`.
pub record IsKey (k : Bytes) : Type 0 where
  pub short : length k < 2 ^ 31
  pub no_nul : All (λ c. c ≢ 0) k

pub c_string_lem : (k : Bytes) → All (λ c. c ≢ 0) k → c_string k ≡ k
unfolding c_string
c_string_lem [] h = refl
c_string_lem (c ∷ k) h = ground (arith, c_string_lem k h.1)
