-- ===== src/Common/Unit.antt =====
-- Scores: floats from 0 to 1.
use multimodal_content_moder.Common.{ℕ, ◌+◌, ◌*◌, ◌/◌, ◌≤◌, ◌≡◌, true, Bool-cases, inl, inr, arith}
use multimodal_content_moder.Common.Float.{FloatOps, float_max, float_min}

module _ (fl : FloatOps) where
  open fl use {F, leb, ltb, lit, add, mul, div, round4}

  abbrev pub IsScore : F → Type 0
  IsScore x = (leb (lit 0) x ≡ true) × (leb x (lit 10000) ≡ true)

  pub lit-IsScore : (n : ℕ) → n ≤ 10000 → IsScore (lit n)
  lit-IsScore n h = (
    ground (arith, fl.leb-lit 0 n (omega arith) (omega arith)),
    ground (arith, fl.leb-lit n 10000 (omega arith) (omega arith)),
  )

  pub max-IsScore : (a b : F) → IsScore a → IsScore b → IsScore (float_max fl a b)
  max-IsScore a b ha hb = elim (Bool-cases (ltb a b)) [ inl h ↦ rw h hb | inr h ↦ rw h ha ]

  pub min-IsScore : (a b : F) → IsScore a → IsScore b → IsScore (float_min fl a b)
  min-IsScore a b ha hb = elim (Bool-cases (ltb b a)) [ inl h ↦ rw h hb | inr h ↦ rw h ha ]

  pub round4-IsScore : (a : F) → IsScore a → IsScore (round4 a)
  round4-IsScore a h = ground (
    arith,
    fl.round4-mono (lit 0) a,
    fl.round4-mono a (lit 10000),
    fl.round4-lit 0 (omega arith),
    fl.round4-lit 10000 (omega arith),
  )

  -- `n / 10000 + x * m / 10000`, for a score `x`
  pub linear-IsScore :
      (n m : ℕ) (x : F) → n + m + 2 ≤ 10000 → IsScore x → IsScore (add (lit n) (mul x (lit m)))
  linear-IsScore n m x h (low, high) = (from_below, to_above)
    where
      below : (k j : ℕ) → k ≤ j → j ≤ 100000000 → leb (lit k) (lit j) ≡ true
      below k j le fits = ground (arith, fl.leb-lit k j (omega arith) fits)

      product : F
      product = mul x (lit m)

      product_nonneg : leb (lit 0) product ≡ true
      product_nonneg =
          fl.leb_trans (lit 0) (mul (lit 0) (lit 0)) product
            (fl.mul-lit 0 0 (omega arith) (omega arith)).0
            (fl.mul-mono (lit 0) x (lit 0) (lit m) (below 0 0 (omega arith) (omega arith))
              (below 0 0 (omega arith) (omega arith)) low (below 0 m (omega arith) (omega arith))
              (fl.leb_trans x (lit 10000) (lit 100000000) high
                (below 10000 100000000 (omega arith) (omega arith)))
              (below m 100000000 (omega arith) (omega arith)))

      product_le : leb product (lit (m + 1)) ≡ true
      product_le =
          let top = mul (lit 10000) (lit m) in
          let grown : leb product top ≡ true =
            fl.mul-mono x (lit 10000) (lit m) (lit m) low (below 0 m (omega arith) (omega arith))
              high (below m m (omega arith) (omega arith))
              (below 10000 100000000 (omega arith) (omega arith))
              (below m 100000000 (omega arith) (omega arith)) in
          let near = (fl.mul-lit 10000 m (omega arith) (omega arith)).1 in
          let same : 10000 * m / 10000 + 1 ≡ m + 1 = omega arith in
          fl.leb_trans product top (lit (m + 1)) grown (rw same at near)

      from_below : leb (lit 0) (add (lit n) product) ≡ true
      from_below =
          fl.leb_trans (lit 0) (add (lit 0) (lit 0)) (add (lit n) product)
            (fl.add-lit 0 0 (omega arith) (omega arith)).0
            (fl.add-mono (lit 0) (lit n) (lit 0) product (below 0 0 (omega arith) (omega arith))
              (below 0 0 (omega arith) (omega arith)) (below 0 n (omega arith) (omega arith))
              product_nonneg)

      to_above : leb (add (lit n) product) (lit 10000) ≡ true
      to_above =
          let top = add (lit n) (lit (m + 1)) in
          fl.leb_trans (add (lit n) product) top (lit 10000)
            (fl.add-mono (lit n) (lit n) product (lit (m + 1))
              (below 0 n (omega arith) (omega arith)) product_nonneg
              (below n n (omega arith) (omega arith)) product_le)
            (fl.leb_trans top (lit (n + (m + 1) + 1)) (lit 10000)
              (fl.add-lit n (m + 1) (omega arith) (omega arith)).1
              (below (n + (m + 1) + 1) 10000 (omega arith) (omega arith)))
