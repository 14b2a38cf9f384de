-- ===== src/Common/Sorting.antt =====
-- `ORDER BY` with a Boolean order, and its laws. Rows that the order does not tell apart keep their
-- places; SQL leaves these open.
use Prim.Native.Nat.{ℕ, zero, suc}
use mathlib.Core.Path.{◌≡◌, refl, ap}
use mathlib.Core.Logic.{inl, inr}
use mathlib.Core.Bool.{Bool, true, false}
use mathlib.Core.List.{List, [], ◌∷◌, ◌++◌, Perm}
use mathlib.Core.List.Perm
use multimodal_content_moder.Common.Tests.{if◌then◌else◌, Bool-cases}
use multimodal_content_moder.Common.Lists.{All, take, drop}

module _ {A : Type 0} (le : A → A → Bool) where
  unfoldable pub insert_by : A → List A → List A
  insert_by x [] = x ∷ []
  insert_by x (y ∷ ys) = let rest = insert_by x ys in if le x y then x ∷ y ∷ ys else y ∷ rest

  unfoldable pub order_by : List A → List A
  unfolding insert_by
  order_by [] = []
  order_by (x ∷ xs) = insert_by x (order_by xs)

  -- each row is before or level with all that follow
  abbrev pub IsSorted : List A → Type 0
  IsSorted [] = Unit
  IsSorted (x ∷ xs) = All (λ y. le x y ≡ true) xs × IsSorted xs

  insert_by-perm : (x : A) (ys : List A) → Perm (insert_by x ys) (x ∷ ys)
  unfolding insert_by
  insert_by-perm x [] = Perm.rfl
  insert_by-perm x (y ∷ ys) = elim (Bool-cases (le x y)) [
    | inl before ↦ rw (before, insert_by) Perm.rfl
    | inr after ↦
        rw (after, insert_by) (Perm.trans (Perm.cons y (insert_by-perm x ys)) (Perm.swap x y ys))
  ]

  pub order_by-perm : (xs : List A) → Perm (order_by xs) xs
  unfolding order_by
  order_by-perm [] = Perm.rfl
  order_by-perm (x ∷ xs) =
      Perm.trans (insert_by-perm x (order_by xs)) (Perm.cons x (order_by-perm xs))

  All-insert_by : (P : A → Type 0) (x : A) (ys : List A) → P x → All P ys → All P (insert_by x ys)
  unfolding insert_by
  All-insert_by P x [] p all = (p, tt)
  All-insert_by P x (y ∷ ys) p (q, all) = elim (Bool-cases (le x y)) [
    | inl before ↦ rw (before, insert_by) (p, (q, all))
    | inr after ↦ rw (after, insert_by) (q, All-insert_by P x ys p all)
  ]

  All-weaken : (P Q : A → Type 0) (xs : List A) → ((x : A) → P x → Q x) → All P xs → All Q xs
  All-weaken P Q [] f all = tt
  All-weaken P Q (x ∷ xs) f (p, all) = (f x p, All-weaken P Q xs f all)

  module _ (total : (x y : A) → le x y ≡ false → le y x ≡ true)
      (trans : (x y z : A) → le x y ≡ true → le y z ≡ true → le x z ≡ true) where
    insert_by-IsSorted : (x : A) (ys : List A) → IsSorted ys → IsSorted (insert_by x ys)
    unfolding insert_by
    insert_by-IsSorted x [] sorted = (tt, tt)
    insert_by-IsSorted x (y ∷ ys) (below, sorted) = elim (Bool-cases (le x y)) [
      | inl before ↦
          rw (before, insert_by)
            (
              (
                before,
                All-weaken (λ z. le y z ≡ true) (λ z. le x z ≡ true) ys (λ z. trans x y z before)
                    below,
              ),
              (below, sorted),
            )
      | inr after ↦
          rw (after, insert_by)
            (
              All-insert_by (λ z. le y z ≡ true) x ys (total x y after) below,
              insert_by-IsSorted x ys sorted,
            )
    ]

    pub order_by-IsSorted : (xs : List A) → IsSorted (order_by xs)
    unfolding order_by
    order_by-IsSorted [] = tt
    order_by-IsSorted (x ∷ xs) = insert_by-IsSorted x (order_by xs) (order_by-IsSorted xs)

pub All-order_by :
    {A : Type 0} (le : A → A → Bool) (P : A → Type 0) (xs : List A)
    → All P xs
    → All P (order_by le xs)
unfolding order_by
All-order_by le P [] all = tt
All-order_by le P (x ∷ xs) (p, all) =
    All-insert_by le P x (order_by le xs) p (All-order_by le P xs all)

pub All-take : {A : Type 0} (P : A → Type 0) (n : ℕ) (xs : List A) → All P xs → All P (take n xs)
All-take P zero xs all = tt
All-take P (suc n) [] all = tt
All-take P (suc n) (x ∷ xs) (p, all) = (p, All-take P n xs all)

pub take-drop : {A : Type 0} (n : ℕ) (xs : List A) → take n xs ++ drop n xs ≡ xs
take-drop zero xs = refl
take-drop (suc n) [] = refl
take-drop (suc n) (x ∷ xs) = ap (◌∷◌ x) (take-drop n xs)
