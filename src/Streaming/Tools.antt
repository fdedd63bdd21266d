-- ===== src/Streaming/Tools.antt =====
-- `ToolCallDetector` of internal/streaming/tool_detector.go: the assembly of tool calls from fragments. The
-- JSON of a line is parsed by a parameter: `none` is a line that is no chunk with a choice.
use enchanted_proxy.Prelude.{
  lookup, ◌==◌, length, insert, ◌||◌, ℕ, zero, suc, Bool, true, false, ◌&&◌, List, [], ◌∷◌, ◌++◌,
  Option, none, some, Text, codes, text_eq, if◌then◌else◌, nat_key,
}

-- A fragment of a tool call, as it stands in a chunk.
pub record ToolCallDelta : Type 0 where
  pub index : ℕ
  pub id : Text
  pub call_type : Text
  pub name : Text
  pub arguments : Text

pub record Choice : Type 0 where
  pub tool_calls : List ToolCallDelta
  pub finish_reason : Text

pub record BufferedToolCall : Type 0 where
  pub id : Text
  pub call_type : Text
  pub name : Text
  pub arguments : Text

pub record ToolCallDetector : Type 0 where
  pub tool_calls : List (ℕ × BufferedToolCall)
  pub finish_reason : Text
  pub has_tool_calls : Bool

abbrev pub new_tool_call_detector : ToolCallDetector
new_tool_call_detector = record { tool_calls = []; finish_reason = []; has_tool_calls = false }

abbrev pub or_else : Text → Text → Text
or_else [] new = new
or_else (c ∷ old) new = c ∷ old

-- The call of an index once a fragment of it has come: a later fragment fills in a missing ID or name, and
-- its arguments are appended.
unfoldable pub merge : Option BufferedToolCall → ToolCallDelta → BufferedToolCall
merge none d = record { id = d.id; call_type = d.call_type; name = d.name; arguments = d.arguments }
merge (some b) d = record b {
  id = or_else b.id d.id;
  name = or_else b.name d.name;
  arguments = b.arguments ++ d.arguments;
}

unfoldable pub add_delta : List (ℕ × BufferedToolCall) → ToolCallDelta → List (ℕ × BufferedToolCall)
unfolding merge
add_delta calls d = insert d.index (merge (lookup d.index calls) d) calls

unfoldable pub add_deltas :
    List (ℕ × BufferedToolCall) → List ToolCallDelta → List (ℕ × BufferedToolCall)
unfolding add_delta
add_deltas calls [] = calls
add_deltas calls (d ∷ ds) = add_deltas (add_delta calls d) ds

abbrev pub finish_choice : Text → ToolCallDetector → Bool → ToolCallDetector × Bool
finish_choice [] t found = (t, found)
finish_choice (c ∷ reason) t found =
    (record t { finish_reason = c ∷ reason }, text_eq (c ∷ reason) (codes "tool_calls") || found)

abbrev is_nil : List ToolCallDelta → Bool
is_nil [] = true
is_nil (_ ∷ _) = false

unfoldable pub process_choice : ToolCallDetector → Choice → ToolCallDetector × Bool
unfolding add_deltas
process_choice t c =
    if is_nil c.tool_calls
    then finish_choice c.finish_reason t false
    else finish_choice c.finish_reason
        (record t { tool_calls = add_deltas t.tool_calls c.tool_calls; has_tool_calls = true }) true

abbrev pub drop_prefix : Text → Text → Option Text
drop_prefix [] s = some s
drop_prefix (p ∷ ps) [] = none
drop_prefix (p ∷ ps) (c ∷ s) = if p == c then drop_prefix ps s else none

unfoldable pub process_chunk :
    (Text → Option Choice) → ToolCallDetector → Text → ToolCallDetector × Bool
unfolding process_choice
process_chunk parse t line = elim (drop_prefix (codes "data: ") line) [
  | none ↦ (t, false)
  | some data_text ↦
      if text_eq data_text (codes "[DONE]")
      then (t, false)
      else elim (parse data_text) [ none ↦ (t, false) | some choice ↦ process_choice t choice ]
]

abbrev pub is_complete : ToolCallDetector → Bool
is_complete t = text_eq t.finish_reason (codes "tool_calls") && t.has_tool_calls

-- The calls of the indices from one on.
abbrev pub collect : ℕ → ℕ → List (ℕ × BufferedToolCall) → List BufferedToolCall
collect zero i calls = []
collect (suc n) i calls =
    let rest = collect n (suc i) calls in elim (lookup i calls) [ none ↦ rest | some b ↦ b ∷ rest ]

unfoldable pub get_tool_calls : ToolCallDetector → List BufferedToolCall
get_tool_calls t = if is_complete t then collect (length t.tool_calls) 0 t.tool_calls else []
