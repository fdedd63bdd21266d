-- ===== src/Glm/Starts.antt =====
-- The beginnings of a tag that internal/streaming/glm_content_filter.go lists.
use enchanted_proxy.Prelude.{
  any-none, ◌==◌, ◌-◌, ◌≤◌, ℕ, suc, Bool, true, false, not, List, [], ◌∷◌, map, Text, text_eq,
  text_eq_iff, has_prefix, length, any, ◌≡◌, refl, sym, ap, ◌∙◌, inl, inr, arith, Bool-cases,
}
use enchanted_proxy.Glm.Search.{
  tag_of, has_suffix, start_of, find_partial_tag_start, opening_partials, closing_partials,
  longest_partials, open_tag,
}

-- The beginnings of a text that are neither empty nor the text.
abbrev pub starts : Text → List Text
starts [] = []
starts (c ∷ []) = []
starts (c ∷ d ∷ p) = (c ∷ []) ∷ map (◌∷◌ c) (starts (d ∷ p))

-- The front characters of a text and of a beginning of it agree.
front-prefix :
    (q c : ℕ) (p s : Text) → has_prefix (q ∷ p) (c ∷ s) ≡ true → (q ≡ c) × (has_prefix p s ≡ true)
front-prefix q c p s h = ground arith

any-map :
    (f : Text → Bool) (c : ℕ) (ps : List Text) → any f (map (◌∷◌ c) ps) ≡ any (λ p. f (c ∷ p)) ps
any-map f c [] = refl
any-map f c (p ∷ ps) = ground (arith, any-map f c ps)

-- A test that no beginning passes fails on every text that begins the tag and is not the tag.
pub any-starts :
    (f : Text → Bool) (p : Text) (c : ℕ) (s : Text)
    → any f (starts p) ≡ false
    → has_prefix p (c ∷ s) ≡ true
    → has_prefix (c ∷ s) p ≡ false
    → f (c ∷ s) ≡ false
any-starts f [] c s none_of begins longer = cc
any-starts f (q ∷ []) c [] none_of begins longer = ground arith
any-starts f (q ∷ []) c (d ∷ s) none_of begins longer = ground arith
any-starts f (q ∷ r ∷ p) c [] none_of begins longer =
    let (e, _) = front-prefix q c (r ∷ p) [] begins in
    ap (λ x. f (x ∷ [])) (sym e) ∙ (any-none f (q ∷ []) (map (◌∷◌ q) (starts (r ∷ p))) none_of).0
any-starts f (q ∷ r ∷ p) c (d ∷ s) none_of begins longer =
    let (e, begins_too) = front-prefix q c (r ∷ p) (d ∷ s) begins in
    let none_longer = (any-none f (q ∷ []) (map (◌∷◌ q) (starts (r ∷ p))) none_of).1 in
    ap (λ x. f (x ∷ d ∷ s)) (sym e)
    ∙ any-starts (λ t. f (q ∷ t)) (r ∷ p) d s (sym (any-map f q (starts (r ∷ p))) ∙ none_longer)
        begins_too (ground arith)

pub any-equal :
    (f : Text → Bool) (s : Text) (ps : List Text)
    → any f ps ≡ false
    → f s ≡ true
    → any (text_eq s) ps ≡ false
any-equal f s [] h k = refl
any-equal f s (p ∷ ps) h k = elim (Bool-cases (text_eq s p)) [
  | inl same ↦ (let clash = sym k ∙ ap f ((text_eq_iff s p).0 same) ∙ (any-none f p ps h).0 in cc)
  | inr other ↦ ground (arith, any-equal f s ps)
]

pub any-weaken :
    (f g : Text → Bool) (ps : List Text)
    → ((p : Text) → f p ≡ true → g p ≡ true)
    → any g ps ≡ false
    → any f ps ≡ false
any-weaken f g [] w h = refl
any-weaken f g (p ∷ ps) w h = ground (arith, any-weaken f g ps w, w p)

pub has_suffix-length : (s p : Text) → has_suffix s p ≡ true → length p ≤ length s
has_suffix-length [] [] h = omega arith
has_suffix-length [] (q ∷ p) h = cc
has_suffix-length (c ∷ s) p h = elim (Bool-cases (text_eq (c ∷ s) p)) [
  | inl same ↦ (let e = ap length ((text_eq_iff (c ∷ s) p).0 same) in omega arith)
  | inr other ↦ (let k = has_suffix-length s p (ground arith) in omega arith)
]

pub has_suffix_refl : (s : Text) → has_suffix s s ≡ true
has_suffix_refl [] = refl
has_suffix_refl (c ∷ s) = ground (arith, text_eq_iff (c ∷ s) (c ∷ s))

suc-minus : (m n : ℕ) → n ≤ m → suc m - n ≡ suc (m - n)
suc-minus m n h = omega arith

-- A character in front of a text moves where a beginning of the tag starts, unless the whole is one.
pub start_of-cons :
    (ps : List Text) (c : ℕ) (s : Text)
    → any (text_eq (c ∷ s)) ps ≡ false
    → start_of ps (c ∷ s) ≡ suc (start_of ps s)
start_of-cons [] c s h = refl
start_of-cons (p ∷ ps) c s h = elim (Bool-cases (has_suffix s p)) [
  | inl ends ↦
      (let k = has_suffix-length s p ends in
        rw ((any-none (text_eq (c ∷ s)) p ps h).0, ends, suc-minus (length s) (length p) k))
  | inr other ↦
      (let (different, rest) = any-none (text_eq (c ∷ s)) p ps h in
        rw (different, other, start_of-cons ps c s rest))
]

-- A text that ends on no listed beginning begins no tag itself, and its rest ends on none.
pub any-has_suffix-tail :
    (c : ℕ) (s : Text) (ps : List Text)
    → any (has_suffix (c ∷ s)) ps ≡ false
    → any (has_suffix s) ps ≡ false
any-has_suffix-tail c s ps h =
    any-weaken (has_suffix s) (has_suffix (c ∷ s)) ps (λ p k. ground arith) h

abbrev pub partials_of : Bool → List Text
partials_of true = closing_partials
partials_of false = opening_partials

partials_of-starts : (b : Bool) → partials_of b ≡ starts (tag_of b)
partials_of-starts true = refl
partials_of-starts false = refl

-- The lists of the code are complete: a text that begins a tag ends on a listed beginning.
pub no-beginning :
    (b : Bool) (c : ℕ) (s : Text)
    → any (has_suffix (c ∷ s)) (partials_of b) ≡ false
    → has_prefix (c ∷ s) (tag_of b) ≡ false
    → has_prefix (tag_of b) (c ∷ s) ≡ false
no-beginning b c s h k = elim (Bool-cases (has_prefix (tag_of b) (c ∷ s))) [
  | inl begins ↦
      (let clash =
          sym (has_suffix_refl (c ∷ s))
          ∙ any-starts (has_suffix (c ∷ s)) (tag_of b) c s
              (ap (any (has_suffix (c ∷ s))) (sym (partials_of-starts b)) ∙ h) begins k in
        cc)
  | inr other ↦ other
]

-- A beginning of the tag starts at its front.
pub find_partial_tag_start-here :
    (c : ℕ) (s : Text)
    → has_prefix open_tag (c ∷ s) ≡ true
    → has_prefix (c ∷ s) open_tag ≡ false
    → find_partial_tag_start (c ∷ s) ≡ 0
unfolding find_partial_tag_start
find_partial_tag_start-here c s begins longer =
    let found =
      any-starts (λ t. not (find_partial_tag_start t == 0)) open_tag c s refl begins longer in
    ground arith

pub find_partial_tag_start-later :
    (c : ℕ) (s : Text)
    → has_prefix open_tag (c ∷ s) ≡ false
    → find_partial_tag_start (c ∷ s) ≡ suc (find_partial_tag_start s)
unfolding find_partial_tag_start
find_partial_tag_start-later c s h =
    start_of-cons longest_partials c s
      (any-equal (λ p. not (has_prefix open_tag p)) (c ∷ s) longest_partials refl (rw h))
