-- ===== src/Common/Float.antt =====
-- Python's `float` (an IEEE double), which the checker does not have: a type with the operations
-- that the program uses, and what IEEE arithmetic says of the comparisons. The laws hold of NaN too,
-- with which every comparison is false.
use Prim.Native.Nat.{ℕ, ◌+◌, ◌-◌, ◌*◌, ◌/◌, ◌≤◌, ◌<◌}
use mathlib.Core.Path.{◌≡◌}
use mathlib.Core.Bool.{Bool, true, false}
use multimodal_content_moder.Common.Tests.{leb as leb_ℕ, ltb as ltb_ℕ, if◌then◌else◌}

pub record FloatOps : Type 1 where
  pub F : Type 0
  -- `x <= y` and `x < y`
  pub leb : F → F → Bool
  pub ltb : F → F → Bool
  pub add : F → F → F
  pub mul : F → F → F
  pub div : F → F → F
  -- `lit n` is the double nearest to n / 10000; the literals of the source have four digits at most
  pub lit : ℕ → F
  -- `round(x, 4)`
  pub round4 : F → F
  pub leb_trans : (a b c : F) → leb a b ≡ true → leb b c ≡ true → leb a c ≡ true
  pub leb_of_ltb : (a b : F) → ltb a b ≡ true → leb a b ≡ true
  pub leb-false_of_ltb : (a b : F) → ltb a b ≡ true → leb b a ≡ false
  pub leb-lit : (n m : ℕ) → n ≤ 100000000 → m ≤ 100000000 → leb (lit n) (lit m) ≡ leb_ℕ n m
  pub ltb-lit : (n m : ℕ) → n ≤ 100000000 → m ≤ 100000000 → ltb (lit n) (lit m) ≡ ltb_ℕ n m
  pub round4-lit : (n : ℕ) → n ≤ 100000000 → round4 (lit n) ≡ lit n
  -- what rounding to nearest keeps of the order, between 0 and the largest literal
  pub round4-mono : (a b : F) → leb a b ≡ true → leb (round4 a) (round4 b) ≡ true
  pub add-mono :
      (a a' b b' : F)
      → leb (lit 0) a ≡ true
      → leb (lit 0) b ≡ true
      → leb a a' ≡ true
      → leb b b' ≡ true
      → leb (add a b) (add a' b') ≡ true
  pub mul-mono :
      (a a' b b' : F)
      → leb (lit 0) a ≡ true
      → leb (lit 0) b ≡ true
      → leb a a' ≡ true
      → leb b b' ≡ true
      → leb a' (lit 100000000) ≡ true
      → leb b' (lit 100000000) ≡ true
      → leb (mul a b) (mul a' b') ≡ true
  pub add-lit :
      (n m : ℕ)
      → n ≤ 100000000
      → m ≤ 100000000
      → (leb (lit (n + m - 1)) (add (lit n) (lit m)) ≡ true)
        × (leb (add (lit n) (lit m)) (lit (n + m + 1)) ≡ true)
  pub mul-lit :
      (n m : ℕ)
      → n ≤ 100000000
      → m ≤ 10000
      → (leb (lit (n * m / 10000 - 1)) (mul (lit n) (lit m)) ≡ true)
        × (leb (mul (lit n) (lit m)) (lit (n * m / 10000 + 1)) ≡ true)
  pub div-unit :
      (a : F) (n : ℕ)
      → 0 < n
      → n ≤ 100000000
      → leb (lit 0) a ≡ true
      → leb a (lit n) ≡ true
      → (leb (lit 0) (div a (lit n)) ≡ true) × (leb (div a (lit n)) (lit 10000) ≡ true)

-- `max(a, b)` keeps `a` unless `b > a`; `min(a, b)` keeps `a` unless `b < a`
module _ (fl : FloatOps) where
  abbrev pub float_max : fl.F → fl.F → fl.F
  float_max a b = if fl.ltb a b then b else a

  abbrev pub float_min : fl.F → fl.F → fl.F
  float_min a b = if fl.ltb b a then b else a
