-- ===== src/Normalizer/TextOrder.antt =====
-- JavaScript's order of texts, on native texts: it shows that the laws that the hash relies on can
-- hold, and the witnesses run on it. Code points stand for UTF-16 units.
use Prim.Native.Char.{code}
use Prim.Native.String.{[] as empty, ◌∷◌ as ◌∷ᵗ◌}
use mathlib.Core.Path.{subst}
use text.Mathlib.TextEquality.{Char-path}
use linkedin_hyper_v.Prelude.{
  ◌≡◌, ◌≢◌, ◌⊎◌, refl, inl, inr, sym, String, Bool, true, false, ◌||◌, ◌&&◌, arith, ltb, ◌==◌,
}
use linkedin_hyper_v.Normalizer.Json.{HashingLaws, Hashing}

unfoldable pub text_before : String → String → Bool
text_before s empty = false
text_before empty (d ∷ᵗ t) = true
text_before (c ∷ᵗ s) (d ∷ᵗ t) = ltb (code c) (code d) || (code c == code d && text_before s t)

ordered : (s t : String) → (s ≡ t) ⊎ ((text_before s t ≡ true) ⊎ (text_before t s ≡ true))
unfolding text_before
ordered empty empty = inl refl
ordered empty (d ∷ᵗ t) = inr (inl refl)
ordered (c ∷ᵗ s) empty = inr (inr refl)
ordered (c ∷ᵗ s) (d ∷ᵗ t) = ground (arith, ordered s t, Char-path c d)

pub asymmetric_lem : (s t : String) → text_before s t ≡ true → text_before t s ≡ false
unfolding text_before
asymmetric_lem s empty h = ground arith
asymmetric_lem empty (d ∷ᵗ t) h = refl
asymmetric_lem (c ∷ᵗ s) (d ∷ᵗ t) h = ground (arith, asymmetric_lem s t)

pub transitive_lem :
    (s t u : String) → text_before s t ≡ true → text_before t u ≡ true → text_before s u ≡ true
unfolding text_before
transitive_lem s t empty h k = ground arith
transitive_lem s empty (d ∷ᵗ u) h k = ground arith
transitive_lem empty (c ∷ᵗ t) (d ∷ᵗ u) h k = refl
transitive_lem (b ∷ᵗ s) (c ∷ᵗ t) (d ∷ᵗ u) h k = ground (arith, transitive_lem s t u)

-- Every hashing that compares keys so has the laws.
pub text_before-HashingLaws : (h : Hashing) → h.before ≡ text_before → HashingLaws h
text_before-HashingLaws h e = record {
  total = λ k l d. subst (λ b. (b k l ≡ true) ⊎ (b l k ≡ true)) (sym e) (distinct k l d);
  asymmetric = subst (λ b. (k l : String) → b k l ≡ true → b l k ≡ false) (sym e) asymmetric_lem;
  transitive =
      subst (λ b. (k l m : String) → b k l ≡ true → b l m ≡ true → b k m ≡ true) (sym e)
        transitive_lem;
}
  where
    distinct : (k l : String) → k ≢ l → (text_before k l ≡ true) ⊎ (text_before l k ≡ true)
    distinct k l d = elim (ordered k l) [ inl same ↦ absurd (d same) | inr o ↦ o ]
