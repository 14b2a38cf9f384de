-- ===== src/Common/Lists.antt =====
-- Lists measured by native numbers, and tables as lists of rows: `SELECT ... WHERE`,
-- `UPDATE ... WHERE`, `COUNT(*)`.
use Prim.Native.Nat.{ℕ, zero, suc, ◌+◌, ◌≤◌, min}
use mathlib.Core.Path.{◌≡◌, refl, ap}
use mathlib.Core.Bool.{Bool, true, false, ◌||◌}
use mathlib.Core.List.{List, [], ◌∷◌, ◌++◌}
use mathlib.Core.Option.{Option, none, some}
use native.Mathlib.Omega.{arith}
use multimodal_content_moder.Common.Tests.{if◌then◌else◌, is_some}

module _ {ℓ} {A : Type ℓ} where
  abbrev pub length : List A → ℕ
  length [] = 0
  length (x ∷ xs) = suc (length xs)

  abbrev pub take : ℕ → List A → List A
  take zero xs = []
  take (suc n) [] = []
  take (suc n) (x ∷ xs) = x ∷ take n xs

  abbrev pub drop : ℕ → List A → List A
  drop zero xs = xs
  drop (suc n) [] = []
  drop (suc n) (x ∷ xs) = drop n xs

  pub length-append : (xs ys : List A) → length (xs ++ ys) ≡ length xs + length ys
  length-append [] ys = omega arith
  length-append (x ∷ xs) ys = omega (arith, length-append xs ys)

  pub length-take : (n : ℕ) (xs : List A) → length (take n xs) ≡ min n (length xs)
  length-take zero xs = omega arith
  length-take (suc n) [] = omega arith
  length-take (suc n) (x ∷ xs) = omega (arith, length-take n xs)

  -- Every element has the property.
  abbrev pub All {κ} : (A → Type κ) → List A → Type κ
  All P [] = Unit
  All P (x ∷ xs) = P x × All P xs

  -- `any(test(x) for x in xs)`
  unfoldable pub any : (A → Bool) → List A → Bool
  any test [] = false
  any test (x ∷ xs) = test x || any test xs

  -- `fetchrow("SELECT ... WHERE test")` on a unique column
  unfoldable pub find_where : (A → Bool) → List A → Option A
  find_where test [] = none
  find_where test (x ∷ xs) = if test x then some x else find_where test xs

  -- `fetch("SELECT ... WHERE test")`
  unfoldable pub select_where : (A → Bool) → List A → List A
  select_where test [] = []
  select_where test (x ∷ xs) = let rest = select_where test xs in if test x then x ∷ rest else rest

  -- `SELECT COUNT(*) ... WHERE test`
  unfoldable pub count_where : (A → Bool) → List A → ℕ
  count_where test [] = 0
  count_where test (x ∷ xs) = let rest = count_where test xs in if test x then suc rest else rest

  -- `UPDATE ... SET change WHERE test`
  unfoldable pub update_where : (A → Bool) → (A → A) → List A → List A
  update_where test change [] = []
  update_where test change (x ∷ xs) = (if test x then change x else x) ∷ update_where test change xs

  -- A found row satisfies the test.
  pub find_where_sound :
      (test : A → Bool) (xs : List A) {a : A} → find_where test xs ≡ some a → test a ≡ true
  unfolding find_where
  find_where_sound test [] h = ground arith
  find_where_sound test (x ∷ xs) {a} h = ground (arith, find_where_sound test xs {a = a})

  pub any-eq-is_some : (test : A → Bool) (xs : List A) → any test xs ≡ is_some (find_where test xs)
  unfolding any find_where
  any-eq-is_some test [] = refl
  any-eq-is_some test (x ∷ xs) = ground (arith, any-eq-is_some test xs)

  pub length-update_where :
      (test : A → Bool) (change : A → A) (xs : List A)
      → length (update_where test change xs) ≡ length xs
  unfolding update_where
  length-update_where test change [] = refl
  length-update_where test change (x ∷ xs) = ap suc (length-update_where test change xs)

  pub count_where-le-length : (test : A → Bool) (xs : List A) → count_where test xs ≤ length xs
  unfolding count_where
  count_where-le-length test [] = omega arith
  count_where-le-length test (x ∷ xs) = ground (arith, count_where-le-length test xs)

  pub length-select_where :
      (test : A → Bool) (xs : List A) → length (select_where test xs) ≡ count_where test xs
  unfolding select_where count_where
  length-select_where test [] = refl
  length-select_where test (x ∷ xs) = ground (arith, length-select_where test xs)
