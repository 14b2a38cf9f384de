-- ===== src/Common/Exec.antt =====
-- Code that reads and writes a state and may raise: what was written before a raise stays
-- written, unless a transaction rolls it back.
use mathlib.Core.Path.{◌≡◌, refl}
use mathlib.Core.Logic.{◌⊎◌, inl, inr}
use mathlib.Core.Bool.{Bool, true, false}

pub data Result {ℓ} (E A : Type ℓ) : Type ℓ where
  ok : A → Result E A
  err : E → Result E A

abbrev pub Exec : Type 0 → Type 0 → Type 0 → Type 0
Exec E S A = S → Result E A × S

module _ {E S A : Type 0} where
  abbrev pub pure : A → Exec E S A
  pure a s = (ok a, s)

  abbrev pub raise : E → Exec E S A
  raise e s = (err e, s)

  abbrev pub lift : Result E A → Exec E S A
  lift r s = (r, s)

  -- a query
  abbrev pub fetch : (S → A) → Exec E S A
  fetch f s = (ok (f s), s)

  -- `async with conn.transaction()`: an exception undoes the writes of the block
  abbrev pub roll_back : S → Result E A × S → Result E A × S
  roll_back s (ok a, s') = (ok a, s')
  roll_back s (err e, s') = (err e, s)

  abbrev pub transaction : Exec E S A → Exec E S A
  transaction m s = roll_back s (m s)

  -- `try: m except Exception as e: handler(e)`
  abbrev pub catch_with : (E → Exec E S A) → Result E A × S → Result E A × S
  catch_with handler (ok a, s) = (ok a, s)
  catch_with handler (err e, s) = handler e s

  abbrev pub try_except : Exec E S A → (E → Exec E S A) → Exec E S A
  try_except m handler s = catch_with handler (m s)

module _ {E S : Type 0} where
  -- a statement that writes
  abbrev pub execute : (S → S) → Exec E S (Unit {0})
  execute f s = (ok tt, f s)

  abbrev pub raise_if : Bool → E → Exec E S (Unit {0})
  raise_if true e s = (err e, s)
  raise_if false e s = (ok tt, s)

  abbrev pub when : Bool → Exec E S (Unit {0}) → Exec E S (Unit {0})
  when true m s = m s
  when false m s = (ok tt, s)

module _ {E S A B : Type 0} where
  abbrev pub continue : (A → Exec E S B) → Result E A × S → Result E B × S
  continue f (ok a, s) = f a s
  continue f (err e, s) = (err e, s)

  infixl 5 ◌>>=◌ ◌>>◌
  abbrev pub ◌>>=◌ : Exec E S A → (A → Exec E S B) → Exec E S B
  ◌>>=◌ m f s = continue f (m s)

  abbrev pub ◌>>◌ : Exec E S A → Exec E S B → Exec E S B
  ◌>>◌ m n s = continue (λ _. n) (m s)

pub Result-cases {ℓ} :
    {E A : Type ℓ} (r : Result E A) → ((a : A) × (r ≡ ok a)) ⊎ ((e : E) × (r ≡ err e))
Result-cases (ok a) = inl (a, refl)
Result-cases (err e) = inr (e, refl)
