-- ===== src/Glm/Tests.antt =====
-- The properties of the filter of internal/streaming/glm_content_filter.go at concrete texts.
use enchanted_proxy.Prelude.{Text, codes, ◌≡◌, refl, List, [], ◌∷◌, ◌++◌, false}
use enchanted_proxy.Glm.Scan.{scan, reading}
use enchanted_proxy.Glm.Filter.{new_glm_content_filter, filter_sse_content}
use enchanted_proxy.Glm.Chunks.{filter_chunks, filter_chunks_shown, joined}
use enchanted_proxy.Glm.Leaks.{split_tag_leaks, angle}

-- A call in the middle of a text, cut in its tags.
abbrev cut_call : List Text
cut_call = codes "a <to" ∷ codes "ol_call><tool_call>ls</tool" ∷ codes "_call> b" ∷ []

filter_chunks_shown_example :
    (filter_chunks cut_call new_glm_content_filter).1
    ≡ (scan (reading false) (joined cut_call)).shown
filter_chunks_shown_example = filter_chunks_shown cut_call

scan_test : (scan (reading false) (joined cut_call)).shown ≡ codes "a  b"
unfolding scan
scan_test = refl

split_tag_leaks_example :
    let (g, first) = filter_sse_content (codes "a " ++ angle) new_glm_content_filter in
    let (h, second) = filter_sse_content (codes "tool_call>ls") g in
    (first ++ second ≡ codes "a tool_call>ls") × (h.partial_tag ≡ angle)
split_tag_leaks_example = split_tag_leaks (codes "a ") (codes "tool_call>ls") refl refl
