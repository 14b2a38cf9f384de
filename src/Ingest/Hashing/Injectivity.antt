-- ===== src/Ingest/Hashing/Injectivity.antt =====
-- The idempotency key tells two uploads apart, unless a caption holds a NUL.
use mathlib.Core.List.{append_assoc}
use multimodal_content_moder.Common.{
  ℕ, ◌<◌, ◌≡◌, refl, sym, ap, ◌∙◌, String, List, [], ◌∷◌, ◌++◌, All, arith, strip,
}
use multimodal_content_moder.Ingest.Hashing.{
  utf8_char, utf8, preimage, content_hash, NulFree, NulFree-utf8, split_at_nul,
}

-- code points
abbrev pub IsText : List ℕ → Type 0
IsText = All (λ c. c < 1114112)

utf8_char_first :
    (c d : ℕ) (s t : List ℕ)
    → c < 1114112
    → d < 1114112
    → utf8_char c ++ s ≡ utf8_char d ++ t
    → (c ≡ d) × (s ≡ t)
unfolding utf8_char
utf8_char_first c d s t hc hd e = ground arith

utf8-injective : (s t : List ℕ) → IsText s → IsText t → utf8 s ≡ utf8 t → s ≡ t
unfolding utf8
utf8-injective [] [] hs ht e = refl
utf8-injective [] (d ∷ t) hs ht e = absurd (not_empty d (utf8 t) e)
  where
    not_empty : (d : ℕ) (t : List ℕ) → [] ≡ utf8_char d ++ t → ⊥
    not_empty d t e = unfold utf8_char in ground arith
utf8-injective (c ∷ s) [] hs ht e = absurd (not_empty c (utf8 s) e)
  where
    not_empty : (d : ℕ) (t : List ℕ) → utf8_char d ++ t ≡ [] → ⊥
    not_empty d t e = unfold utf8_char in ground arith
utf8-injective (c ∷ s) (d ∷ t) hs ht e =
    let (same, rest) = utf8_char_first c d (utf8 s) (utf8 t) hs.0 ht.0 e in
    ground (arith, utf8-injective s t hs.1 ht.1 rest)

-- Where the stripped captions and the policies hold no NUL, two uploads have the same preimage only
-- if they have the same bytes, the same stripped caption and the same policy.
pub preimage-injective :
    (x x' caption caption' policy policy' : List ℕ)
    → NulFree (strip caption) × IsText (strip caption)
    → NulFree (strip caption') × IsText (strip caption')
    → NulFree policy × IsText policy
    → NulFree policy' × IsText policy'
    → preimage x caption policy ≡ preimage x' caption' policy'
    → (x ≡ x') × (strip caption ≡ strip caption') × (policy ≡ policy')
unfolding preimage
preimage-injective x x' caption caption' policy policy' hc hc' hp hp' e =
    let c = utf8 (strip caption) in
    let c' = utf8 (strip caption') in
    let regrouped : (x ++ (0 ∷ c)) ++ (0 ∷ utf8 policy) ≡ (x' ++ (0 ∷ c')) ++ (0 ∷ utf8 policy') =
      append_assoc x (0 ∷ c) (0 ∷ utf8 policy)
      ∙ e
      ∙ sym (append_assoc x' (0 ∷ c') (0 ∷ utf8 policy')) in
    let outer =
      split_at_nul (x ++ (0 ∷ c)) (x' ++ (0 ∷ c')) (utf8 policy) (utf8 policy')
        (NulFree-utf8 policy hp.0) (NulFree-utf8 policy' hp'.0) regrouped in
    let inner =
      split_at_nul x x' c c' (NulFree-utf8 (strip caption) hc.0)
        (NulFree-utf8 (strip caption') hc'.0) outer.0 in
    (
      inner.0,
      utf8-injective (strip caption) (strip caption') hc.1 hc'.1 inner.1,
      utf8-injective policy policy' hp.1 hp'.1 outer.1,
    )

utf8-append : (s t : List ℕ) → utf8 (s ++ t) ≡ utf8 s ++ utf8 t
unfolding utf8
utf8-append [] t = refl
utf8-append (c ∷ s) t = simp (utf8-append s t, append_assoc)

-- A NUL in a caption can be moved into the image: an upload whose caption is `a`, NUL, `b` has the
-- key of the upload of the image with NUL and `a` appended, under the caption `b`, where stripping
-- changes neither caption.
pub hash_collision :
    (sha256_hex : List ℕ → String) (x a b policy : List ℕ)
    → strip (a ++ (0 ∷ b)) ≡ a ++ (0 ∷ b)
    → strip b ≡ b
    → content_hash sha256_hex x (a ++ (0 ∷ b)) policy
      ≡ content_hash sha256_hex (x ++ (0 ∷ utf8 a)) b policy
unfolding content_hash preimage
hash_collision sha256_hex x a b policy h k =
    ap sha256_hex (simp (h, k, utf8-append) (unfold utf8 utf8_char in simp append_assoc))
