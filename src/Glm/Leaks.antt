-- ===== src/Glm/Leaks.antt =====
-- The quick check of `FilterSSELine` (internal/streaming/glm_content_filter.go), which does not look at what is
-- held back.
use enchanted_proxy.Prelude.{
  any-none, ◌==◌, suc, Bool, true, false, List, [], ◌∷◌, ◌++◌, map, Text, codes, text_eq,
  has_prefix, length, any, drop, take, none, ◌≡◌, refl, ap, ◌∙◌, arith,
}
use enchanted_proxy.Glm.Search.{
  before_with, cut, before_with, contains, has_suffix, find_partial_tag_start, open_tag,
  has_partial_opening_tag, opening_partials,
}
use enchanted_proxy.Glm.Prefixes.{cut-later}
use enchanted_proxy.Glm.Starts.{has_suffix_refl, has_suffix_refl, find_partial_tag_start-later}
use enchanted_proxy.Glm.Rest.{filter_loop-outside, pass_text-holds}
use enchanted_proxy.Glm.Filter.{
  outside_call, pass_text, GlmContentFilter, new_glm_content_filter, filter_loop,
  filter_content_chunk, filter_sse_content,
}

abbrev pub has_angle : Text → Bool
has_angle = any (λ c. c == b'<')

abbrev pub angle : Text
angle = codes "<"

-- A text without an angle contains nothing that begins with one.
has_prefix-angle : (s p : Text) → has_angle s ≡ false → has_prefix s (b'<' ∷ p) ≡ false
has_prefix-angle [] p h = refl
has_prefix-angle (c ∷ s) p h = let (e, _) = any-none (λ c. c == b'<') c s h in rw e

contains-angle : (s p : Text) → has_angle s ≡ false → contains s (b'<' ∷ p) ≡ false
unfolding contains
contains-angle [] p h = refl
contains-angle (c ∷ s) p h =
    rw (has_prefix-angle (c ∷ s) p h, contains-angle s p (any-none (λ c. c == b'<') c s h).1)

has_suffix-angle : (s p : Text) → has_angle s ≡ false → has_suffix s (b'<' ∷ p) ≡ false
has_suffix-angle [] p h = refl
has_suffix-angle (c ∷ s) p h =
    let (e, rest) = any-none (λ c. c == b'<') c s h in rw (e, has_suffix-angle s p rest)

any-angle :
    (s : Text) (ps : List Text)
    → has_angle s ≡ false
    → any (has_suffix s) (map (◌∷◌ b'<') ps) ≡ false
any-angle s [] h = refl
any-angle s (p ∷ ps) h = rw (has_suffix-angle s p h, any-angle s ps h)

has_partial_opening_tag-angle : (s : Text) → has_angle s ≡ false → has_partial_opening_tag s ≡ false
unfolding has_partial_opening_tag
has_partial_opening_tag-angle s h = any-angle s (map (drop 1) opening_partials) h

-- A text that ends on an angle is held back from there.
has_suffix-++ : (s p : Text) → has_suffix (s ++ p) p ≡ true
has_suffix-++ [] p = has_suffix_refl p
has_suffix-++ (c ∷ s) p = ground (arith, has_suffix-++ s p)

cut-angle : (s : Text) → has_angle s ≡ false → cut open_tag (s ++ angle) ≡ none
unfolding cut
cut-angle [] h = refl
cut-angle (c ∷ s) h =
    let (e, rest) = any-none (λ c. c == b'<') c s h in
    cut-later open_tag c (s ++ angle) (rw e) ∙ ap (before_with c) (cut-angle s rest)

find_partial_tag_start-angle :
    (s : Text) → has_angle s ≡ false → find_partial_tag_start (s ++ angle) ≡ length s
unfolding find_partial_tag_start
find_partial_tag_start-angle [] h = refl
find_partial_tag_start-angle (c ∷ s) h =
    let (e, rest) = any-none (λ c. c == b'<') c s h in
    let k : (60 == c) ≡ false = ground arith in
    find_partial_tag_start-later c (s ++ angle) (rw k)
    ∙ ap suc (find_partial_tag_start-angle s rest)

take-++ : (s t : Text) → take (length s) (s ++ t) ≡ s
take-++ [] t = refl
take-++ (c ∷ s) t = ap (◌∷◌ c) (take-++ s t)

drop-++ : (s t : Text) → drop (length s) (s ++ t) ≡ t
drop-++ [] t = refl
drop-++ (c ∷ s) t = drop-++ s t

abbrev held_angle : GlmContentFilter
held_angle = record new_glm_content_filter { partial_tag = angle }

angle_is_held : (s : Text) → has_partial_opening_tag (s ++ angle) ≡ true
unfolding has_partial_opening_tag
angle_is_held s = rw (has_suffix-++ s angle)

pass_text-angle :
    (s : Text)
    → has_angle s ≡ false
    → pass_text (s ++ angle) new_glm_content_filter ≡ (held_angle, s)
pass_text-angle s h =
    pass_text-holds (s ++ angle) new_glm_content_filter (angle_is_held s)
    ∙ rw (find_partial_tag_start-angle s h, take-++ s angle, drop-++ s angle)

outside_call-angle :
    (next : Text → GlmContentFilter → GlmContentFilter × Text) (s : Text)
    → has_angle s ≡ false
    → outside_call next (s ++ angle) (cut open_tag (s ++ angle)) new_glm_content_filter
      ≡ (held_angle, s)
unfolding outside_call
outside_call-angle next s h =
    ap (λ o. outside_call next (s ++ angle) o new_glm_content_filter) (cut-angle s h)
    ∙ pass_text-angle s h

text_eq-angle : (s : Text) → text_eq (s ++ angle) [] ≡ false
text_eq-angle [] = refl
text_eq-angle (c ∷ s) = refl

filter_content_chunk-angle :
    (s : Text)
    → has_angle s ≡ false
    → filter_content_chunk (s ++ angle) new_glm_content_filter ≡ (held_angle, s)
unfolding filter_content_chunk
filter_content_chunk-angle [] h =
    filter_loop-outside 0 b'<' [] new_glm_content_filter refl
    ∙ outside_call-angle (filter_loop 0) [] h
filter_content_chunk-angle (c ∷ s) h =
    filter_loop-outside (length (s ++ angle)) c (s ++ angle) new_glm_content_filter refl
    ∙ outside_call-angle (filter_loop (length (s ++ angle))) (c ∷ s) h

filter_sse_content-angle :
    (s : Text)
    → has_angle s ≡ false
    → filter_sse_content (s ++ angle) new_glm_content_filter ≡ (held_angle, s)
unfolding filter_sse_content
filter_sse_content-angle s h =
    ground (arith, text_eq-angle s, angle_is_held s, filter_content_chunk-angle s h)

-- Outside of a call a line without an angle passes as it is, whatever is held back.
filter_sse_content-plain :
    (u : Text) (f : GlmContentFilter)
    → f.inside_tool_call ≡ false
    → has_angle u ≡ false
    → filter_sse_content u f ≡ (f, u)
unfolding filter_sse_content
filter_sse_content-plain u f outside h = ground (
  arith,
  outside,
  contains-angle u (codes "tool_call") h,
  contains-angle u (codes "/tool_call") h,
  has_partial_opening_tag-angle u h,
)

-- Where a line ends on an angle, the first character of a tag, the next line without an angle passes as it is:
-- a tag that is cut there is not found, its rest is let through, and the angle is missing.
pub split_tag_leaks :
    (s u : Text)
    → has_angle s ≡ false
    → has_angle u ≡ false
    → let (g, first) = filter_sse_content (s ++ angle) new_glm_content_filter in
      let (h, second) = filter_sse_content u g in
      (first ++ second ≡ s ++ u) × (h.partial_tag ≡ angle)
split_tag_leaks s u hs hu =
    let first = filter_sse_content-angle s hs in
    let second =
      ap (λ r. filter_sse_content u r.0) first ∙ filter_sse_content-plain u held_angle refl hu in
    (
      ap
            (λ r.
              r.1
              ++ (filter_sse_content u
                  (filter_sse_content (s ++ angle) new_glm_content_filter).0).1)
            first
          ∙ ap (λ r. s ++ r.1) second,
      ap (λ r. r.0.partial_tag) second,
    )
