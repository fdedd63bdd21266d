-- ===== src/Glm/Passes.antt =====
-- How the pass over the characters meets the tags that internal/streaming/glm_content_filter.go cuts at.
use enchanted_proxy.Prelude.{
  ◌≤◌, ℕ, suc, Bool, true, false, not, [], ◌∷◌, ◌++◌, Text, has_prefix, length, any, drop, take,
  none, some, ◌≡◌, refl, sym, ap, ◌∙◌, inl, inr, arith, Bool-cases,
}
use enchanted_proxy.Glm.Search.{
  cut, has_suffix, find_partial_tag_start, open_tag, close_tag, tag_of,
}
use enchanted_proxy.Glm.Prefixes.{
  has_prefix-append, not-beginning, has_prefix-longer, has_prefix-length, has_prefix-++, cut-none,
  cut-some, cut-length,
}
use enchanted_proxy.Glm.Starts.{
  any-has_suffix-tail, partials_of, no-beginning, find_partial_tag_start-here,
  find_partial_tag_start-later,
}
use enchanted_proxy.Glm.Scan.{
  reading, Scanned, show, visible, scan, scan-turns, scan-holds, scan-shows, scan-passing,
}

-- What is let through of a text without a tag.
abbrev pub visible_all : Bool → Text → Text
visible_all true s = []
visible_all false s = s

show-show :
    (b : Bool) (c : ℕ) (s : Text) (r : Scanned)
    → show (visible b c) (show (visible_all b s) r) ≡ show (visible_all b (c ∷ s)) r
show-show true c s r = refl
show-show false c s r = refl

show-nothing : (b : Bool) (r : Scanned) → show (visible_all b []) r ≡ r
show-nothing true r = refl
show-nothing false r = refl

cut-nothing : (b : Bool) → cut (tag_of b) [] ≡ none
unfolding cut
cut-nothing true = refl
cut-nothing false = refl

-- A tag turns the pass, whatever follows it.
scan-tag :
    (b : Bool) (s t : Text)
    → has_prefix s (tag_of b) ≡ true
    → scan (reading b) (s ++ t) ≡ scan (reading (not b)) (drop (length (tag_of b)) s ++ t)
scan-tag true [] t h = cc
scan-tag false [] t h = cc
scan-tag true (c ∷ s) t h =
    let k : 12 ≤ suc (length s) = has_prefix-length (c ∷ s) close_tag h in
    scan-turns true c (s ++ t) (has_prefix-longer (c ∷ s) t close_tag h)
    ∙ scan-passing 10 false s t (omega arith)
scan-tag false (c ∷ s) t h =
    let k : 11 ≤ suc (length s) = has_prefix-length (c ∷ s) open_tag h in
    scan-turns false c (s ++ t) (has_prefix-longer (c ∷ s) t open_tag h)
    ∙ scan-passing 9 true s t (omega arith)

-- Where a tag is still to come, none begins that is cut off.
not-at-end :
    (p : Text) (c : ℕ) (s u v : Text) → cut p s ≡ some (u, v) → has_prefix p (c ∷ s) ≡ false
not-at-end p c s u v h = elim (Bool-cases (has_prefix p (c ∷ s))) [
  | inl begins ↦ absurd (
      let long = has_prefix-length p (c ∷ s) begins in
      let short = cut-length p s u v h in omega arith)
  | inr other ↦ other
]

-- Up to the first tag everything is let through outside of a call, and nothing inside.
pub scan-cut :
    (b : Bool) (s t u v : Text)
    → cut (tag_of b) s ≡ some (u, v)
    → scan (reading b) (s ++ t) ≡ show (visible_all b u) (scan (reading (not b)) (v ++ t))
scan-cut b [] t u v h = (let k = cut-nothing b in cc)
scan-cut b (c ∷ s) t u v h = elim (cut-some (tag_of b) c s u v h) [
  | inl (found, eu, ev) ↦
      (scan-tag b (c ∷ s) t found
        ∙ sym (show-nothing b (scan (reading (not b)) (drop (length (tag_of b)) (c ∷ s) ++ t)))
        ∙ rw (eu, ev))
  | inr (other, (w, eu, e)) ↦
      (let begins_none = not-at-end (tag_of b) c s w v e in
        scan-shows b c (s ++ t) (has_prefix-append (c ∷ s) t (tag_of b) other begins_none)
          (not-beginning (c ∷ s) t (tag_of b) begins_none)
        ∙ ap (show (visible b c)) (scan-cut b s t w v e)
        ∙ show-show b c w (scan (reading (not b)) (v ++ t))
        ∙ ap (λ x. show (visible_all b x) (scan (reading (not b)) (v ++ t))) (sym eu))
]

-- A text without a tag and without a beginning of one at its end is passed as it is.
pub scan-plain :
    (b : Bool) (s t : Text)
    → cut (tag_of b) s ≡ none
    → any (has_suffix s) (partials_of b) ≡ false
    → scan (reading b) (s ++ t) ≡ show (visible_all b s) (scan (reading b) t)
scan-plain b [] t h k = sym (show-nothing b (scan (reading b) t))
scan-plain b (c ∷ s) t h k =
    let (no_tag, rest) = cut-none (tag_of b) c s h in
    let begins_none = no-beginning b c s k no_tag in
    scan-shows b c (s ++ t) (has_prefix-append (c ∷ s) t (tag_of b) no_tag begins_none)
      (not-beginning (c ∷ s) t (tag_of b) begins_none)
    ∙ ap (show (visible b c)) (scan-plain b s t rest (any-has_suffix-tail c s (partials_of b) k))
    ∙ show-show b c s (scan (reading b) t)

-- Outside of a call a text without a tag is let through up to the beginning of a tag at its end.
pub scan-held :
    (s t : Text)
    → cut open_tag s ≡ none
    → scan (reading false) (s ++ t)
      ≡ show
          (take (find_partial_tag_start s) s)
          (scan (reading false) (drop (find_partial_tag_start s) s ++ t))
unfolding find_partial_tag_start
scan-held [] t h = refl
scan-held (c ∷ s) t h = elim (Bool-cases (has_prefix open_tag (c ∷ s))) [
  | inl begins ↦ rw (find_partial_tag_start-here c s begins (cut-none open_tag c s h).0)
  | inr other ↦
      (let (no_tag, rest) = cut-none open_tag c s h in
        scan-shows false c (s ++ t) (has_prefix-append (c ∷ s) t open_tag no_tag other)
          (not-beginning (c ∷ s) t open_tag other)
        ∙ ap (show (c ∷ [])) (scan-held s t rest)
        ∙ rw (find_partial_tag_start-later c s other))
]

-- What is held back shows nothing, in either place.
pub held-hidden :
    (s : Text)
    → cut open_tag s ≡ none
    → (scan (reading false) (drop (find_partial_tag_start s) s)).shown ≡ []
unfolding find_partial_tag_start scan
held-hidden [] h = refl
held-hidden (c ∷ s) h = elim (Bool-cases (has_prefix open_tag (c ∷ s))) [
  | inl begins ↦
      (let (no_tag, rest) = cut-none open_tag c s h in
        rw (find_partial_tag_start-here c s begins no_tag, scan-holds false c s no_tag begins))
  | inr other ↦
      rw (find_partial_tag_start-later c s other, held-hidden s (cut-none open_tag c s h).1)
]

pub inside-hidden : (s : Text) → cut close_tag s ≡ none → (scan (reading true) s).shown ≡ []
unfolding scan
inside-hidden [] h = refl
inside-hidden (c ∷ s) h =
    let (no_tag, rest) = cut-none close_tag c s h in
    elim (Bool-cases (has_prefix close_tag (c ∷ s))) [
      | inl begins ↦ rw (scan-holds true c s no_tag begins)
      | inr other ↦ rw (scan-shows true c s no_tag other, inside-hidden s rest)
    ]

-- A further opening tag inside of a call changes nothing.
pub scan-further :
    (s t : Text)
    → has_prefix s open_tag ≡ true
    → scan (reading true) (s ++ t) ≡ scan (reading true) (drop (length open_tag) s ++ t)
unfolding scan
scan-further s t h =
    ap (λ x. scan (reading true) (x ++ t)) (sym (has_prefix-++ s open_tag h)) ∙ refl
