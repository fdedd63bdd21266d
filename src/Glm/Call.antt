-- ===== src/Glm/Call.antt =====
-- `parseToolCallContent` (internal/streaming/glm_content_filter.go), with its two regular expressions as
-- functions. A text of at most `fuel` characters is searched.
use enchanted_proxy.Prelude.{
  ◌==◌, ◌||◌, ℕ, zero, suc, Bool, List, [], ◌∷◌, ◌++◌, Option, none, some, Text, codes, has_prefix,
  if◌then◌else◌, length, drop, text_eq, trim_space, text_key, insert,
}
use enchanted_proxy.Glm.Search.{open_tag, cut}

pub record GlmToolCall : Type 0 where
  pub name : Text
  pub arguments : List (Text × Text)

-- strings.ReplaceAll of the opening tag by nothing.
abbrev pub without_tags : ℕ → Text → Text
without_tags zero s = s
without_tags (suc fuel) s = elim (cut open_tag s) [
  | none ↦ s
  | some (before, after) ↦ before ++ without_tags fuel after
]

-- The text up to the end of its line.
abbrev pub first_line : Text → Text
first_line [] = []
first_line (c ∷ s) = if c == b'\n' then [] else c ∷ first_line s

-- \s of a regular expression
abbrev pub is_blank : ℕ → Bool
is_blank c = c == b' ' || c == 9 || c == 10 || c == 12 || c == 13

-- ^([^<\s]+)
abbrev pub leading_name : Text → Text
leading_name [] = []
leading_name (c ∷ s) = if c == b'<' || is_blank c then [] else c ∷ leading_name s

abbrev pub skip_spaces : Text → Text
skip_spaces [] = []
skip_spaces (c ∷ s) = if is_blank c then skip_spaces s else c ∷ s

abbrev pub further : {A : Type 0} → ℕ → Option (Text × A) → Option (Text × A)
further c none = none
further c (some (t, a)) = if c == b'\n' then none else some (c ∷ t, a)

-- (.*?) up to an end after which `next` matches; it does not cross a line.
abbrev pub lazily : {A : Type 0} → Text → (Text → Option A) → Text → Option (Text × A)
lazily end next [] = none
lazily end next (c ∷ s) =
    let longer = further c (lazily end next s) in
    if has_prefix (c ∷ s) end
    then elim (next (drop (length end) (c ∷ s))) [ some a ↦ some ([], a) | none ↦ longer ]
    else longer

-- \s*<arg_value>(.*?)</arg_value>, with the text after it.
abbrev pub match_value : Text → Option (Text × Text)
match_value s =
    let rest = skip_spaces s in
    if has_prefix rest (codes "<arg_value>")
    then lazily (codes "</arg_value>") (λ after. some after) (drop 11 rest)
    else none

-- <arg_key>(.*?)</arg_key> and the value: the key, the value and the text after them.
abbrev pub match_argument : Text → Option (Text × (Text × Text))
match_argument s =
    if has_prefix s (codes "<arg_key>")
    then lazily (codes "</arg_key>") match_value (drop 9 s)
    else none

-- FindAllStringSubmatch, into a map.
abbrev pub find_arguments : ℕ → Text → List (Text × Text) → List (Text × Text)
find_arguments zero s found = found
find_arguments (suc fuel) [] found = found
find_arguments (suc fuel) (c ∷ s) found = elim (match_argument (c ∷ s)) [
  | none ↦ find_arguments fuel s found
  | some (key, (value, after)) ↦ find_arguments fuel after (insert key value found)
]

-- A content without a name is no call.
unfoldable pub parse_tool_call_content : Text → Option GlmToolCall
parse_tool_call_content content =
    let text = trim_space (without_tags (length content) content) in
    let name = leading_name (trim_space (first_line text)) in
    if text_eq name []
    then none
    else some (record { name = name; arguments = find_arguments (length text) text [] })
