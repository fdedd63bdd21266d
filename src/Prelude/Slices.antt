-- ===== src/Prelude/Slices.antt =====
-- `take` and `drop` on a list that was appended to or cut before.
use Prim.Native.Nat.{ℕ, zero, suc, ◌+◌, ◌≤◌}
use mathlib.Core.Path.{◌≡◌, refl, sym, ap, ◌∙◌}
use mathlib.Core.List.{List, [], ◌∷◌, ◌++◌}
use native.Mathlib.Omega.{arith}
use enchanted_proxy.Prelude.Lists.{length, take, drop}

module _ {ℓ} {A : Type ℓ} where
  pub take-append : (n : ℕ) (xs ys : List A) → n ≤ length xs → take n (xs ++ ys) ≡ take n xs
  take-append zero xs ys h = refl
  take-append (suc n) [] ys h = elim h [ ]
  take-append (suc n) (x ∷ xs) ys h = rw (take-append n xs ys (omega arith))

  pub drop-append : (n : ℕ) (xs ys : List A) → n ≤ length xs → drop n (xs ++ ys) ≡ drop n xs ++ ys
  drop-append zero xs ys h = refl
  drop-append (suc n) [] ys h = elim h [ ]
  drop-append (suc n) (x ∷ xs) ys h = drop-append n xs ys (omega arith)

  drop-nil : (n : ℕ) → drop {A = A} n [] ≡ []
  drop-nil zero = refl
  drop-nil (suc n) = refl

  pub drop-append_skip :
      (n k : ℕ) (xs ys : List A) → n ≡ length xs + k → drop n (xs ++ ys) ≡ drop k ys
  drop-append_skip n k [] ys h = ap (λ (m : ℕ). drop m ys) (omega (arith, h))
  drop-append_skip zero k (x ∷ xs) ys h = absurd (omega (arith, h))
  drop-append_skip (suc n) k (x ∷ xs) ys h = drop-append_skip n k xs ys (omega (arith, h))

  pub drop-drop : (k n m : ℕ) (xs : List A) → m ≡ n + k → drop k (drop n xs) ≡ drop m xs
  drop-drop k zero m xs h = ap (λ (j : ℕ). drop j xs) (omega (arith, h))
  drop-drop k (suc n) m [] h = drop-nil k ∙ sym (drop-nil m)
  drop-drop k (suc n) zero (x ∷ xs) h = absurd (omega (arith, h))
  drop-drop k (suc n) (suc m) (x ∷ xs) h = drop-drop k n m xs (omega (arith, h))

  pub take_all : (n : ℕ) (xs : List A) → length xs ≤ n → take n xs ≡ xs
  take_all zero [] h = refl
  take_all zero (x ∷ xs) h = elim h [ ]
  take_all (suc n) [] h = refl
  take_all (suc n) (x ∷ xs) h = rw (take_all n xs (omega arith))
