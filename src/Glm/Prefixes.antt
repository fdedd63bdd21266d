-- ===== src/Glm/Prefixes.antt =====
-- Beginnings of texts, for the searches of internal/streaming/glm_content_filter.go.
use mathlib.Core.Option.{some-injective}
use enchanted_proxy.Prelude.{
  ◌==◌, ◌+◌, ◌≤◌, ℕ, zero, suc, true, false, [], ◌∷◌, ◌++◌, none, some, Text, has_prefix, length,
  drop, ◌≡◌, refl, sym, ap, ◌∙◌, inl, inr, arith, Bool-cases, ==_iff, Option-cases, ◌⊎◌,
}
use enchanted_proxy.Glm.Search.{cut, before_with}

-- A prefix of a text that goes on is a prefix of the text, or the text is a beginning of it.
pub has_prefix-append :
    (s t p : Text) → has_prefix s p ≡ false → has_prefix p s ≡ false → has_prefix (s ++ t) p ≡ false
has_prefix-append [] t [] h k = cc
has_prefix-append [] t (q ∷ p) h k = cc
has_prefix-append (c ∷ s) t [] h k = cc
has_prefix-append (c ∷ s) t (q ∷ p) h k = elim (Bool-cases (c == q)) [
  | inl e ↦ (let e' = ==_iff c q in ground (arith, has_prefix-append s t p))
  | inr e ↦ ground arith
]

pub has_prefix-longer : (s t p : Text) → has_prefix s p ≡ true → has_prefix (s ++ t) p ≡ true
has_prefix-longer s t [] h = refl
has_prefix-longer [] t (q ∷ p) h = cc
has_prefix-longer (c ∷ s) t (q ∷ p) h = ground (arith, has_prefix-longer s t p)

-- No beginning of a tag: it stays so if the text goes on.
pub not-beginning : (s t p : Text) → has_prefix p s ≡ false → has_prefix p (s ++ t) ≡ false
not-beginning [] t p h = cc
not-beginning (c ∷ s) t [] h = refl
not-beginning (c ∷ s) t (q ∷ p) h = ground (arith, not-beginning s t p)

pub has_prefix-length : (s p : Text) → has_prefix s p ≡ true → length p ≤ length s
has_prefix-length s [] h = omega arith
has_prefix-length [] (q ∷ p) h = cc
has_prefix-length (c ∷ s) (q ∷ p) h = let k = has_prefix-length s p in ground (arith)

pub has_prefix_refl : (s : Text) → has_prefix s s ≡ true
has_prefix_refl [] = refl
has_prefix_refl (c ∷ s) = ground (arith, has_prefix_refl s)

pub has_prefix-++ : (s p : Text) → has_prefix s p ≡ true → p ++ drop (length p) s ≡ s
has_prefix-++ s [] h = refl
has_prefix-++ [] (q ∷ p) h = cc
has_prefix-++ (c ∷ s) (q ∷ p) h = ground (arith, has_prefix-++ s p)

pub cut-nil_none : (p : Text) → (u v : Text) → cut p [] ≡ some (u, v) → (u ≡ []) × (v ≡ [])
unfolding cut
cut-nil_none [] u v h = (cc, cc)
cut-nil_none (q ∷ p) u v h = cc

pub cut-here :
    (p : Text) (c : ℕ) (s : Text)
    → has_prefix (c ∷ s) p ≡ true
    → cut p (c ∷ s) ≡ some ([], drop (length p) (c ∷ s))
unfolding cut
cut-here p c s h = rw h

pub cut-later :
    (p : Text) (c : ℕ) (s : Text)
    → has_prefix (c ∷ s) p ≡ false
    → cut p (c ∷ s) ≡ before_with c (cut p s)
unfolding cut
cut-later p c s h = rw h

pub cut-none :
    (p : Text) (c : ℕ) (s : Text)
    → cut p (c ∷ s) ≡ none
    → (has_prefix (c ∷ s) p ≡ false) × (cut p s ≡ none)
cut-none p c s h = elim (Bool-cases (has_prefix (c ∷ s) p)) [
  | inl found ↦ (let k = cut-here p c s found in cc)
  | inr other ↦ elim (Option-cases (cut p s)) [
    | inl e ↦ (other, e)
    | inr (y, e) ↦ (let k = cut-later p c s other ∙ ap (before_with c) e in cc)
  ]
]

-- A pattern is found at the front, or behind a first character.
pub cut-some :
    (p : Text) (c : ℕ) (s u v : Text)
    → cut p (c ∷ s) ≡ some (u, v)
    → ((has_prefix (c ∷ s) p ≡ true) × (u ≡ []) × (v ≡ drop (length p) (c ∷ s)))
      ⊎ ((has_prefix (c ∷ s) p ≡ false) × ((w : Text) × (u ≡ c ∷ w) × (cut p s ≡ some (w, v))))
cut-some p c s u v h = elim (Bool-cases (has_prefix (c ∷ s) p)) [
  | inl found ↦
      (let q = some-injective (u, v) ([], drop (length p) (c ∷ s)) (sym h ∙ cut-here p c s found) in
        inl (found, ap (λ z. z.0) q, ap (λ z. z.1) q))
  | inr other ↦ elim (Option-cases (cut p s)) [
    | inl e ↦ (let k = cut-later p c s other ∙ ap (before_with c) e in cc)
    | inr ((w, z), e) ↦
        (let q =
            some-injective (u, v) (c ∷ w, z)
              (sym h ∙ cut-later p c s other ∙ ap (before_with c) e) in
          inr (other, (w, ap (λ y. y.0) q, e ∙ ap (λ y. some (w, y)) (sym (ap (λ y. y.1) q)))))
  ]
]

-- Where a pattern is found, the text is as long.
pub cut-length : (p s u v : Text) → cut p s ≡ some (u, v) → length p ≤ length s
unfolding cut
cut-length [] [] u v h = omega arith
cut-length (q ∷ p) [] u v h = cc
cut-length p (c ∷ s) u v h = elim (cut-some p c s u v h) [
  | inl (found, _, _) ↦ has_prefix-length (c ∷ s) p found
  | inr (_, (w, _, e)) ↦ (let k = cut-length p s w v e in omega arith)
]

pub length-drop : (n : ℕ) (s : Text) → n ≤ length s → n + length (drop n s) ≡ length s
length-drop zero s h = omega arith
length-drop (suc n) [] h = absurd (omega arith)
length-drop (suc n) (c ∷ s) h = let k = length-drop n s (omega arith) in omega arith

-- What follows a pattern is shorter by the pattern.
pub cut-shorter : (p s u v : Text) → cut p s ≡ some (u, v) → length p + length v ≤ length s
unfolding cut
cut-shorter [] [] u v h = let e = ap length (cut-nil_none [] u v h).1 in omega arith
cut-shorter (q ∷ p) [] u v h = cc
cut-shorter p (c ∷ s) u v h = elim (cut-some p c s u v h) [
  | inl (found, _, ev) ↦
      (let k = length-drop (length p) (c ∷ s) (has_prefix-length (c ∷ s) p found) in
        let e = ap length ev in omega arith)
  | inr (_, (w, _, e)) ↦ (let k = cut-shorter p s w v e in omega arith)
]
