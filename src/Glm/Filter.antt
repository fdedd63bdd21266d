-- ===== src/Glm/Filter.antt =====
-- `GLMContentFilter` (internal/streaming/glm_content_filter.go). The content of a line of the stream is found by a
-- JSON parser, which is a parameter.
use enchanted_proxy.Prelude.{
  ◌&&◌, not, ℕ, zero, suc, Bool, true, false, List, [], ◌∷◌, ◌++◌, Option, none, some, Text, codes,
  text_eq, if◌then◌else◌, length, take, drop, has_prefix,
}
use enchanted_proxy.Glm.Search.{
  open_tag, close_tag, cut, contains, has_partial_opening_tag, has_partial_closing_tag,
  find_partial_tag_start,
}
use enchanted_proxy.Glm.Call.{GlmToolCall, parse_tool_call_content}

pub record GlmContentFilter : Type 0 where
  pub buffer : Text
  pub inside_tool_call : Bool
  pub partial_tag : Text
  pub tool_calls_found : List GlmToolCall
  pub tool_call_complete : Bool

abbrev pub new_glm_content_filter : GlmContentFilter
new_glm_content_filter = record {
  buffer = [];
  inside_tool_call = false;
  partial_tag = [];
  tool_calls_found = [];
  tool_call_complete = false;
}

abbrev pub add_call : Option GlmToolCall → List GlmToolCall → List GlmToolCall
add_call none calls = calls
add_call (some call) calls = calls ++ call ∷ []

-- A closing tag: what was collected is parsed.
unfoldable pub close_call : Text → GlmContentFilter → GlmContentFilter
close_call content f = record f {
  buffer = [];
  inside_tool_call = false;
  tool_calls_found = add_call (parse_tool_call_content (f.buffer ++ content)) f.tool_calls_found;
  tool_call_complete = true;
}

-- No closing tag: the rest is kept.
unfoldable pub keep_call : Text → GlmContentFilter → GlmContentFilter
keep_call rest f =
    if has_partial_closing_tag rest
    then record f { partial_tag = rest }
    else record f { buffer = f.buffer ++ rest }

unfoldable pub open_call : GlmContentFilter → GlmContentFilter
open_call f = record f { inside_tool_call = true; buffer = [] }

-- The other tags of (<tool_call>)+.
unfoldable pub skip_tags : ℕ → Text → Text
skip_tags zero s = s
skip_tags (suc fuel) s = elim (has_prefix s open_tag) [
  | true ↦ skip_tags fuel (drop (length open_tag) s)
  | false ↦ s
]

-- No opening tag: the beginning of one at the end is held back.
unfoldable pub pass_text : Text → GlmContentFilter → GlmContentFilter × Text
pass_text rest f =
    if has_partial_opening_tag rest
    then (
      record f { partial_tag = drop (find_partial_tag_start rest) rest },
      take (find_partial_tag_start rest) rest,
    )
    else (f, rest)

abbrev pub after_text : Text → GlmContentFilter × Text → GlmContentFilter × Text
after_text t (f, u) = (f, t ++ u)

-- A round of the loop of FilterContentChunk on the rest of a text, with what the search for the tag found; `next`
-- is the rest of the loop.
unfoldable pub inside_call :
    (Text → GlmContentFilter → GlmContentFilter × Text)
    → Text
    → Option (Text × Text)
    → GlmContentFilter
    → GlmContentFilter × Text
inside_call next rest none f = (keep_call rest f, [])
inside_call next rest (some (content, after)) f = next after (close_call content f)

unfoldable pub outside_call :
    (Text → GlmContentFilter → GlmContentFilter × Text)
    → Text
    → Option (Text × Text)
    → GlmContentFilter
    → GlmContentFilter × Text
outside_call next rest none f = pass_text rest f
outside_call next rest (some (before, after)) f =
    after_text before (next (skip_tags (length after) after) (open_call f))

-- Each round but the last one passes a tag.
unfoldable pub filter_loop : ℕ → Text → GlmContentFilter → GlmContentFilter × Text
filter_loop zero rest f = (f, [])
filter_loop (suc fuel) [] f = (f, [])
filter_loop (suc fuel) (c ∷ s) f =
    if f.inside_tool_call
    then inside_call (filter_loop fuel) (c ∷ s) (cut close_tag (c ∷ s)) f
    else outside_call (filter_loop fuel) (c ∷ s) (cut open_tag (c ∷ s)) f

unfoldable pub filter_content_chunk : Text → GlmContentFilter → GlmContentFilter × Text
filter_content_chunk content f =
    let full = f.partial_tag ++ content in
    filter_loop (length full) full (record f { partial_tag = [] })

-- FilterSSELine on the content that the parser finds in a line: the content of the line that is sent on.
unfoldable pub filter_sse_content : Text → GlmContentFilter → GlmContentFilter × Text
filter_sse_content content f =
    if text_eq content []
    then (f, content)
    else if not (contains content (codes "<tool_call"))
        && not (contains content (codes "</tool_call"))
        && not f.inside_tool_call
        && not (has_partial_opening_tag content)
    then (f, content)
    else filter_content_chunk content f

-- A line is `none` where there is no content to filter.
unfoldable pub filter_sse_line :
    (Text → Option Text) → Text → GlmContentFilter → GlmContentFilter × Option Text
filter_sse_line parse line f =
    if not (has_prefix line (codes "data: "))
    then (f, none)
    else if text_eq (drop 6 line) (codes "[DONE]")
    then (f, none)
    else elim (parse (drop 6 line)) [
      | none ↦ (f, none)
      | some content ↦ (let (g, t) = filter_sse_content content f in (g, some t))
    ]
