-- ===== src/Ingest/Hashing.antt =====
-- apps/api/app/hashing.py: the idempotency key of (bytes, caption, policy). SHA-256 is an argument.
-- Captions are code points without surrogates, as the form and JSON parsers deliver them.
pub mod Injectivity
use multimodal_content_moder.Common.{
  ℕ, zero, suc, ◌+◌, ◌*◌, ◌/◌, ◌%◌, ◌<◌, ltb, ◌==◌, ◌≡◌, ◌≢◌, refl, ap, String, List, [], ◌∷◌, ◌++◌,
  All, arith, if◌then◌else◌, strip, codes,
}

-- `chr(c).encode("utf-8")`
unfoldable pub utf8_char : ℕ → List ℕ
utf8_char c =
    if ltb c 128
    then c ∷ []
    else if ltb c 2048
    then (192 + c / 64) ∷ (128 + c % 64) ∷ []
    else if ltb c 65536
    then (224 + c / 4096) ∷ (128 + c / 64 % 64) ∷ (128 + c % 64) ∷ []
    else (240 + c / 262144) ∷ (128 + c / 4096 % 64) ∷ (128 + c / 64 % 64) ∷ (128 + c % 64) ∷ []

-- `s.encode("utf-8")`
unfoldable pub utf8 : List ℕ → List ℕ
unfolding utf8_char
utf8 [] = []
utf8 (c ∷ s) = utf8_char c ++ utf8 s

-- what the hash is updated with
unfoldable pub preimage : List ℕ → List ℕ → List ℕ → List ℕ
preimage image_bytes caption policy_version =
    image_bytes ++ (0 ∷ (utf8 (strip caption) ++ (0 ∷ utf8 policy_version)))

unfoldable pub content_hash : (List ℕ → String) → List ℕ → List ℕ → List ℕ → String
content_hash sha256_hex image_bytes caption policy_version =
    sha256_hex (preimage image_bytes caption policy_version)

abbrev pub NulFree : List ℕ → Type 0
NulFree = All (λ c. 0 < c)

pub All-append : (xs ys : List ℕ) → NulFree xs → NulFree ys → NulFree (xs ++ ys)
All-append [] ys hx hy = hy
All-append (x ∷ xs) ys hx hy = (hx.0, All-append xs ys hx.1 hy)

NulFree-utf8_char : (c : ℕ) → 0 < c → NulFree (utf8_char c)
unfolding utf8_char
NulFree-utf8_char c h = ground arith

pub NulFree-utf8 : (s : List ℕ) → NulFree s → NulFree (utf8 s)
unfolding utf8
NulFree-utf8 [] h = tt
NulFree-utf8 (c ∷ s) h =
    All-append (utf8_char c) (utf8 s) (NulFree-utf8_char c h.0) (NulFree-utf8 s h.1)

no_nul_inside : (xs p q : List ℕ) → NulFree p → p ≡ xs ++ (0 ∷ q) → ⊥
no_nul_inside [] [] q h e = cc
no_nul_inside [] (x ∷ p) q h e = let pos = h.0 in ground arith
no_nul_inside (y ∷ xs) [] q h e = cc
no_nul_inside (y ∷ xs) (x ∷ p) q h e = no_nul_inside xs p q h.1 (ground arith)

-- The last NUL splits a text in one way.
pub split_at_nul :
    (xs ys p q : List ℕ)
    → NulFree p
    → NulFree q
    → xs ++ (0 ∷ p) ≡ ys ++ (0 ∷ q)
    → (xs ≡ ys) × (p ≡ q)
split_at_nul [] [] p q hp hq e = ground arith
split_at_nul [] (y ∷ ys) p q hp hq e = absurd (no_nul_inside ys p q hp (ground arith))
split_at_nul (x ∷ xs) [] p q hp hq e = absurd (no_nul_inside xs q p hq (ground arith))
split_at_nul (x ∷ xs) (y ∷ ys) p q hp hq e = ground (arith, split_at_nul xs ys p q hp hq)
