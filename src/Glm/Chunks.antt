-- ===== src/Glm/Chunks.antt =====
-- `FilterContentChunk` (internal/streaming/glm_content_filter.go) on the chunks of a stream.
use enchanted_proxy.Glm.Rounds.{filter_loop-Continues}
use enchanted_proxy.Prelude.{
  false, List, [], ◌∷◌, ◌++◌, append-nil, append_assoc, Text, length, ◌≡◌, refl, sym, ap, ◌∙◌,
  arith,
}
use enchanted_proxy.Glm.Scan.{reading, show, scan}
use enchanted_proxy.Glm.Filter.{
  GlmContentFilter, filter_content_chunk, after_text, new_glm_content_filter,
}

-- The chunks of a stream one after the other.
abbrev pub filter_chunks : List Text → GlmContentFilter → GlmContentFilter × Text
filter_chunks [] f = (f, [])
filter_chunks (chunk ∷ chunks) f =
    let (g, out) = filter_content_chunk chunk f in after_text out (filter_chunks chunks g)

abbrev pub joined : List Text → Text
joined [] = []
joined (chunk ∷ chunks) = chunk ++ joined chunks

filter_content_chunk-scan :
    (chunk t : Text) (f : GlmContentFilter)
    → let (g, out) = filter_content_chunk chunk f in
      (scan (reading f.inside_tool_call) (f.partial_tag ++ (chunk ++ t))
        ≡ show out (scan (reading g.inside_tool_call) (g.partial_tag ++ t)))
      × ((scan (reading g.inside_tool_call) g.partial_tag).shown ≡ [])
unfolding filter_content_chunk
filter_content_chunk-scan chunk t f =
    let full = f.partial_tag ++ chunk in
    let (same, hidden) =
      filter_loop-Continues (length full) full (record f { partial_tag = [] }) refl (omega arith) in
    (
      ap (scan (reading f.inside_tool_call)) (sym (append_assoc f.partial_tag chunk t)) ∙ same t,
      hidden,
    )

filter_chunks-scan :
    (chunks : List Text) (f : GlmContentFilter)
    → (scan (reading f.inside_tool_call) f.partial_tag).shown ≡ []
    → (filter_chunks chunks f).1
      ≡ (scan (reading f.inside_tool_call) (f.partial_tag ++ joined chunks)).shown
filter_chunks-scan [] f hidden =
    sym hidden
    ∙ ap (λ s. (scan (reading f.inside_tool_call) s).shown) (sym (append-nil f.partial_tag))
filter_chunks-scan (chunk ∷ chunks) f hidden =
    let (g, out) = filter_content_chunk chunk f in
    let (same, hidden_next) = filter_content_chunk-scan chunk (joined chunks) f in
    ap (◌++◌ out) (filter_chunks-scan chunks g hidden_next) ∙ ap (λ r. r.shown) (sym same)

-- However a text is cut into chunks, what the filter lets through of them is what one pass over the characters
-- of the whole text lets through.
pub filter_chunks_shown :
    (chunks : List Text)
    → (filter_chunks chunks new_glm_content_filter).1 ≡ (scan (reading false) (joined chunks)).shown
unfolding scan
filter_chunks_shown chunks = filter_chunks-scan chunks new_glm_content_filter refl
