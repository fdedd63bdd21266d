-- ===== src/Glm/Rest.antt =====
-- What FilterContentChunk (internal/streaming/glm_content_filter.go) does with the rest of a text, against the
-- pass over the characters.
use enchanted_proxy.Prelude.{
  ◌≤◌, ℕ, zero, suc, Bool, true, false, [], ◌∷◌, ◌++◌, Text, has_prefix, length, drop, take, subst,
  none, ◌≡◌, refl, sym, ap, ◌∙◌, inl, inr, arith, Bool-cases,
}
use enchanted_proxy.Glm.Search.{
  cut, find_partial_tag_start, open_tag, close_tag, has_partial_closing_tag,
  has_partial_opening_tag,
}
use enchanted_proxy.Glm.Prefixes.{length-drop, has_prefix-length}
use enchanted_proxy.Glm.Scan.{reading, show, scan}
use enchanted_proxy.Glm.Passes.{scan-plain, scan-held, held-hidden, inside-hidden, scan-further}
use enchanted_proxy.Glm.Filter.{
  GlmContentFilter, filter_loop, keep_call, skip_tags, pass_text, inside_call, outside_call,
}

-- What is left of a text that is read inside of a call or not: a place and a partial tag that continue the pass,
-- and what is let through, all of what shows so far.
abbrev pub Passed : Bool → Text → Bool → Text → Text → Type 0
Passed b s b' p out =
    ((t : Text) → scan (reading b) (s ++ t) ≡ show out (scan (reading b') (p ++ t)))
    × ((scan (reading b') p).shown ≡ [])

abbrev pub Continues : GlmContentFilter → Text → GlmContentFilter × Text → Type 0
Continues f s (g, out) = Passed f.inside_tool_call s g.inside_tool_call g.partial_tag out

pub place :
    {b c b' c' : Bool} {p q : Text} (s out : Text)
    → b ≡ c
    → b' ≡ c'
    → p ≡ q
    → Passed c s c' q out
    → Passed b s b' p out
place {b} {c} {b'} {c'} {p} {q} s out e e' ep h =
    subst (λ z. Passed z s b' p out) (sym e)
      (subst (λ z. Passed c s z p out) (sym e') (subst (λ z. Passed c s c' z out) (sym ep) h))

skip_tags-tag :
    (n : ℕ) (s : Text)
    → has_prefix s open_tag ≡ true
    → skip_tags (suc n) s ≡ skip_tags n (drop (length open_tag) s)
unfolding skip_tags
skip_tags-tag n s h = rw h

skip_tags-other : (n : ℕ) (s : Text) → has_prefix s open_tag ≡ false → skip_tags (suc n) s ≡ s
unfolding skip_tags
skip_tags-other n s h = rw h

pub skip_tags-scan :
    (n : ℕ) (s t : Text) → scan (reading true) (s ++ t) ≡ scan (reading true) (skip_tags n s ++ t)
unfolding skip_tags
skip_tags-scan zero s t = refl
skip_tags-scan (suc n) s t = elim (Bool-cases (has_prefix s open_tag)) [
  | inl tag ↦
      (scan-further s t tag
        ∙ skip_tags-scan n (drop (length open_tag) s) t
        ∙ ap (λ x. scan (reading true) (x ++ t)) (sym (skip_tags-tag n s tag)))
  | inr other ↦ ap (λ x. scan (reading true) (x ++ t)) (sym (skip_tags-other n s other))
]

pub length-skip_tags : (n : ℕ) (s : Text) → length (skip_tags n s) ≤ length s
unfolding skip_tags
length-skip_tags zero s = omega arith
length-skip_tags (suc n) s = elim (Bool-cases (has_prefix s open_tag)) [
  | inl tag ↦
      (let k = length-skip_tags n (drop (length open_tag) s) in
        let l = length-drop (length open_tag) s (has_prefix-length s open_tag tag) in
        let e = ap length (skip_tags-tag n s tag) in omega arith)
  | inr other ↦ (let e = ap length (skip_tags-other n s other) in omega arith)
]

-- The four ways that a round goes.
pub filter_loop-inside :
    (n : ℕ) (c : ℕ) (s : Text) (f : GlmContentFilter)
    → f.inside_tool_call ≡ true
    → filter_loop (suc n) (c ∷ s) f ≡ inside_call (filter_loop n) (c ∷ s) (cut close_tag (c ∷ s)) f
unfolding filter_loop
filter_loop-inside n c s f inside = rw inside

pub filter_loop-outside :
    (n : ℕ) (c : ℕ) (s : Text) (f : GlmContentFilter)
    → f.inside_tool_call ≡ false
    → filter_loop (suc n) (c ∷ s) f ≡ outside_call (filter_loop n) (c ∷ s) (cut open_tag (c ∷ s)) f
unfolding filter_loop
filter_loop-outside n c s f outside = rw outside

keep_call-holds :
    (s : Text) (f : GlmContentFilter)
    → has_partial_closing_tag s ≡ true
    → keep_call s f ≡ record f { partial_tag = s }
unfolding keep_call
keep_call-holds s f h = rw h

keep_call-collects :
    (s : Text) (f : GlmContentFilter)
    → has_partial_closing_tag s ≡ false
    → keep_call s f ≡ record f { buffer = f.buffer ++ s }
unfolding keep_call
keep_call-collects s f h = rw h

pub keep_call-Continues :
    (s : Text) (f : GlmContentFilter)
    → f.partial_tag ≡ []
    → f.inside_tool_call ≡ true
    → cut close_tag s ≡ none
    → Continues f s (keep_call s f, [])
unfolding has_partial_closing_tag scan
keep_call-Continues s f empty inside lost = elim (Bool-cases (has_partial_closing_tag s)) [
  | inl held ↦
      subst (λ g. Continues f s (g, [])) (sym (keep_call-holds s f held))
        (place s [] inside inside refl ((λ t. refl), inside-hidden s lost))
  | inr other ↦
      subst (λ g. Continues f s (g, [])) (sym (keep_call-collects s f other))
        (place s [] inside inside empty ((λ t. scan-plain true s t lost other), refl))
]

pub pass_text-holds :
    (s : Text) (f : GlmContentFilter)
    → has_partial_opening_tag s ≡ true
    → pass_text s f ≡ (
      record f { partial_tag = drop (find_partial_tag_start s) s },
      take (find_partial_tag_start s) s,
    )
unfolding pass_text
pass_text-holds s f h = rw h

pass_text-passes :
    (s : Text) (f : GlmContentFilter) → has_partial_opening_tag s ≡ false → pass_text s f ≡ (f, s)
unfolding pass_text
pass_text-passes s f h = rw h

pub pass_text-Continues :
    (s : Text) (f : GlmContentFilter)
    → f.partial_tag ≡ []
    → f.inside_tool_call ≡ false
    → cut open_tag s ≡ none
    → Continues f s (pass_text s f)
unfolding has_partial_opening_tag scan
pass_text-Continues s f empty outside lost = elim (Bool-cases (has_partial_opening_tag s)) [
  | inl held ↦ subst (Continues f s) (sym (pass_text-holds s f held)) (
      place s (take (find_partial_tag_start s) s) outside outside refl
        ((λ t. scan-held s t lost), held-hidden s lost))
  | inr other ↦
      subst (Continues f s) (sym (pass_text-passes s f other))
        (place s s outside outside empty ((λ t. scan-plain false s t lost other), refl))
]
