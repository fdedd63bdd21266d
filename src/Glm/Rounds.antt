-- ===== src/Glm/Rounds.antt =====
-- The loop of FilterContentChunk (internal/streaming/glm_content_filter.go) against the pass over the characters.
use enchanted_proxy.Glm.Rest.{
  skip_tags-scan, filter_loop-outside, length-skip_tags, keep_call-Continues, pass_text-Continues,
  filter_loop-inside, place, Continues, Passed,
}
use enchanted_proxy.Prelude.{
  ◌≤◌, ℕ, zero, suc, Bool, true, false, [], ◌∷◌, ◌++◌, append_assoc, Text, length, not, subst, some,
  ◌≡◌, refl, sym, ap, ◌∙◌, inl, inr, arith, Bool-cases, Option-cases,
}
use enchanted_proxy.Glm.Search.{cut, tag_of, open_tag, close_tag}
use enchanted_proxy.Glm.Prefixes.{cut-shorter}
use enchanted_proxy.Glm.Scan.{reading, show, scan}
use enchanted_proxy.Glm.Passes.{scan-cut, visible_all}
use enchanted_proxy.Glm.Filter.{
  GlmContentFilter, filter_loop, close_call, open_call, skip_tags, inside_call, outside_call,
}

-- A round that passes a tag continues with the loop on what follows it.
Passed-cut :
    (b : Bool) (s u v w : Text) (b' : Bool) (p out : Text)
    → cut (tag_of b) s ≡ some (u, v)
    → ((t : Text) → scan (reading (not b)) (v ++ t) ≡ scan (reading (not b)) (w ++ t))
    → Passed (not b) w b' p out
    → Passed b s b' p (visible_all b u ++ out)
Passed-cut b s u v w b' p out found same (rest, hidden) = (
  (λ t.
      scan-cut b s t u v found
      ∙ ap (show (visible_all b u)) (same t ∙ rest t)
      ∙ ap (λ x. record (scan (reading b') (p ++ t)) { shown = x })
          (sym (append_assoc (visible_all b u) out (scan (reading b') (p ++ t)).shown))),
  hidden,
)

-- The rounds, where the loop continues the pass on shorter texts.
module _ (n : ℕ) (next : Text → GlmContentFilter → GlmContentFilter × Text)
    (next-Continues : (s : Text) (f : GlmContentFilter)
      → f.partial_tag ≡ []
      → length s ≤ n
      → Continues f s (next s f)) where
  inside_call-Continues :
      (c : ℕ) (s : Text) (f : GlmContentFilter)
      → f.partial_tag ≡ []
      → length s ≤ n
      → f.inside_tool_call ≡ true
      → Continues f (c ∷ s) (inside_call next (c ∷ s) (cut close_tag (c ∷ s)) f)
  unfolding inside_call close_call
  inside_call-Continues c s f empty enough inside = elim (Option-cases (cut close_tag (c ∷ s))) [
    | inl lost ↦
        subst (λ o. Continues f (c ∷ s) (inside_call next (c ∷ s) o f)) (sym lost)
          (keep_call-Continues (c ∷ s) f empty inside lost)
    | inr ((u, v), found) ↦
        (let shorter = cut-shorter close_tag (c ∷ s) u v found in
          let (g, out) = next v (close_call u f) in
          subst (λ o. Continues f (c ∷ s) (inside_call next (c ∷ s) o f)) (sym found)
            (place (c ∷ s) out inside refl refl (
              Passed-cut true (c ∷ s) u v v g.inside_tool_call g.partial_tag out found (λ t. refl)
                (next-Continues v (close_call u f) empty (omega arith)))))
  ]

  outside_call-Continues :
      (c : ℕ) (s : Text) (f : GlmContentFilter)
      → f.partial_tag ≡ []
      → length s ≤ n
      → f.inside_tool_call ≡ false
      → Continues f (c ∷ s) (outside_call next (c ∷ s) (cut open_tag (c ∷ s)) f)
  unfolding outside_call open_call
  outside_call-Continues c s f empty enough outside = elim (Option-cases (cut open_tag (c ∷ s))) [
    | inl lost ↦
        subst (λ o. Continues f (c ∷ s) (outside_call next (c ∷ s) o f)) (sym lost)
          (pass_text-Continues (c ∷ s) f empty outside lost)
    | inr ((u, v), found) ↦
        (let shorter = cut-shorter open_tag (c ∷ s) u v found in
          let skipped = length-skip_tags (length v) v in
          let w = skip_tags (length v) v in
          let (g, out) = next w (open_call f) in
          subst (λ o. Continues f (c ∷ s) (outside_call next (c ∷ s) o f)) (sym found)
            (place (c ∷ s) (u ++ out) outside refl refl (
              Passed-cut false (c ∷ s) u v w g.inside_tool_call g.partial_tag out found
                (skip_tags-scan (length v) v)
                (next-Continues w (open_call f) empty (omega arith)))))
  ]

nothing-Continues : (f : GlmContentFilter) → f.partial_tag ≡ [] → Continues f [] (f, [])
unfolding scan
nothing-Continues f empty = place [] [] refl refl empty ((λ t. refl), refl)

pub filter_loop-Continues :
    (n : ℕ) (s : Text) (f : GlmContentFilter)
    → f.partial_tag ≡ []
    → length s ≤ n
    → Continues f s (filter_loop n s f)
unfolding filter_loop
filter_loop-Continues zero [] f empty enough = nothing-Continues f empty
filter_loop-Continues (suc n) [] f empty enough = nothing-Continues f empty
filter_loop-Continues zero (c ∷ s) f empty enough = absurd (omega arith)
filter_loop-Continues (suc n) (c ∷ s) f empty enough = elim (Bool-cases f.inside_tool_call) [
  | inl inside ↦ subst (Continues f (c ∷ s)) (sym (filter_loop-inside n c s f inside)) (
      inside_call-Continues n (filter_loop n) (filter_loop-Continues n) c s f empty (omega arith)
        inside)
  | inr outside ↦ subst (Continues f (c ∷ s)) (sym (filter_loop-outside n c s f outside)) (
      outside_call-Continues n (filter_loop n) (filter_loop-Continues n) c s f empty (omega arith)
        outside)
]
