-- ===== src/Streaming/Assembly.antt =====
-- What the tool call detector assembles (internal/streaming/tool_detector.go).
use enchanted_proxy.Streaming.Tools.{
  collect, is_complete, get_tool_calls, finish_choice, process_chunk, ToolCallDetector, add_deltas,
  drop_prefix, new_tool_call_detector, process_choice, merge, BufferedToolCall, Choice, add_delta,
  ToolCallDelta,
}
use enchanted_proxy.Prelude.{
  length, is_some, ◌<◌, append_assoc, ==_iff, append-nil, lookup-insert, lookup, ◌==◌, ℕ, zero, suc,
  ◌+◌, Bool, true, false, List, [], ◌∷◌, ◌++◌, Option, none, some, Text, if◌then◌else◌, nat_key,
  codes, text_eq, ◌≡◌, refl, sym, ap, ◌∙◌, inl, inr, arith, Bool-cases, Option-cases,
}

-- All that the fragments of an index say of the arguments, in order.
abbrev pub arguments_of : ℕ → List ToolCallDelta → Text
arguments_of i [] = []
arguments_of i (d ∷ ds) =
    if d.index == i then d.arguments ++ arguments_of i ds else arguments_of i ds

abbrev pub arguments_at : ℕ → List (ℕ × BufferedToolCall) → Text
arguments_at i calls = elim (lookup i calls) [ none ↦ [] | some b ↦ b.arguments ]

add_delta-arguments :
    (i : ℕ) (calls : List (ℕ × BufferedToolCall)) (d : ToolCallDelta)
    → arguments_at i (add_delta calls d)
      ≡ (if d.index == i then arguments_at i calls ++ d.arguments else arguments_at i calls)
unfolding add_delta merge
add_delta-arguments i calls d = elim (Bool-cases (d.index == i)) [
  | inr other ↦
      ap (λ (o : Option BufferedToolCall). args o)
        (lookup-insert d.index i (merge (lookup d.index calls) d) calls)
      ∙ rw other
  | inl here ↦
      let e : d.index ≡ i = (==_iff d.index i).0 here in
      ap (λ (o : Option BufferedToolCall). args o)
        (lookup-insert d.index i (merge (lookup d.index calls) d) calls)
      ∙ rw here
          (merged (lookup d.index calls) ∙ ap (λ (j : ℕ). arguments_at j calls ++ d.arguments) e)
]
  where
    args : Option BufferedToolCall → Text
    args none = []
    args (some b) = b.arguments

    merged : (o : Option BufferedToolCall) → (merge o d).arguments ≡ args o ++ d.arguments
    merged none = refl
    merged (some b) = refl

add_deltas-arguments :
    (i : ℕ) (ds : List ToolCallDelta) (calls : List (ℕ × BufferedToolCall))
    → arguments_at i (add_deltas calls ds) ≡ arguments_at i calls ++ arguments_of i ds
unfolding add_deltas
add_deltas-arguments i [] calls = sym (append-nil _)
add_deltas-arguments i (d ∷ ds) calls =
    add_deltas-arguments i ds (add_delta calls d)
    ∙ ap (λ (t : Text). t ++ arguments_of i ds) (add_delta-arguments i calls d)
    ∙ step
  where
    step :
        (if d.index == i then arguments_at i calls ++ d.arguments else arguments_at i calls)
          ++ arguments_of i ds
        ≡ arguments_at i calls ++ arguments_of i (d ∷ ds)
    step = elim (Bool-cases (d.index == i)) [
      | inl here ↦ rw here (append_assoc (arguments_at i calls) d.arguments (arguments_of i ds))
      | inr other ↦ rw other
    ]

-- The fragments in a line of the stream.
unfoldable pub deltas_of : (Text → Option Choice) → Text → List ToolCallDelta
deltas_of parse line = elim (drop_prefix (codes "data: ") line) [
  | none ↦ []
  | some data_text ↦
      if text_eq data_text (codes "[DONE]")
      then []
      else elim (parse data_text) [ none ↦ [] | some choice ↦ choice.tool_calls ]
]

unfoldable pub process_lines :
    (Text → Option Choice) → ToolCallDetector → List Text → ToolCallDetector
process_lines parse t [] = t
process_lines parse t (line ∷ lines) = process_lines parse (process_chunk parse t line).0 lines

-- The arguments of an index in all lines.
unfoldable pub arguments_in : (Text → Option Choice) → ℕ → List Text → Text
unfolding deltas_of
arguments_in parse i [] = []
arguments_in parse i (line ∷ lines) =
    arguments_of i (deltas_of parse line) ++ arguments_in parse i lines

finish_choice-tool_calls :
    (reason : Text) (t : ToolCallDetector) (found : Bool)
    → (finish_choice reason t found).0.tool_calls ≡ t.tool_calls
finish_choice-tool_calls [] t found = refl
finish_choice-tool_calls (c ∷ reason) t found = refl

process_choice-arguments :
    (i : ℕ) (t : ToolCallDetector) (c : Choice)
    → arguments_at i (process_choice t c).0.tool_calls
      ≡ arguments_at i t.tool_calls ++ arguments_of i c.tool_calls
unfolding process_choice
process_choice-arguments i t c = go c.tool_calls c.finish_reason
  where
    go :
        (ds : List ToolCallDelta) (reason : Text)
        → arguments_at i
            (process_choice t (record { tool_calls = ds; finish_reason = reason })).0.tool_calls
          ≡ arguments_at i t.tool_calls ++ arguments_of i ds
    go [] reason =
        ap (arguments_at i) (finish_choice-tool_calls reason t false) ∙ sym (append-nil _)
    go (d ∷ ds) reason =
        ap (arguments_at i) (finish_choice-tool_calls reason _ true)
        ∙ add_deltas-arguments i (d ∷ ds) t.tool_calls

process_chunk-arguments :
    (parse : Text → Option Choice) (i : ℕ) (t : ToolCallDetector) (line : Text)
    → arguments_at i (process_chunk parse t line).0.tool_calls
      ≡ arguments_at i t.tool_calls ++ arguments_of i (deltas_of parse line)
unfolding process_chunk deltas_of
process_chunk-arguments parse i t line = elim (Option-cases (drop_prefix (codes "data: ") line)) [
  | inl e ↦ rw e (sym (append-nil _))
  | inr (text, e) ↦ rw e (elim (Bool-cases (text_eq text (codes "[DONE]"))) [
    | inl done ↦ rw done (sym (append-nil _))
    | inr more ↦ rw more (elim (Option-cases (parse text)) [
      | inl bad ↦ rw bad (sym (append-nil _))
      | inr (choice, good) ↦ rw good (process_choice-arguments i t choice)
    ])
  ])
]

process_lines-from :
    (parse : Text → Option Choice) (i : ℕ) (lines : List Text) (t : ToolCallDetector)
    → arguments_at i (process_lines parse t lines).tool_calls
      ≡ arguments_at i t.tool_calls ++ arguments_in parse i lines
unfolding process_lines arguments_in
process_lines-from parse i [] t = sym (append-nil _)
process_lines-from parse i (line ∷ lines) t =
    process_lines-from parse i lines (process_chunk parse t line).0
    ∙ ap (λ (a : Text). a ++ arguments_in parse i lines) (process_chunk-arguments parse i t line)
    ∙ append_assoc (arguments_at i t.tool_calls) (arguments_of i (deltas_of parse line))
        (arguments_in parse i lines)

-- Wherever a provider cuts the arguments of its tool calls, and however it interleaves the calls: the
-- arguments that are assembled for an index are those of its fragments, in order and complete.
pub process_lines-arguments :
    (parse : Text → Option Choice) (i : ℕ) (lines : List Text)
    → arguments_at i (process_lines parse new_tool_call_detector lines).tool_calls
      ≡ arguments_in parse i lines
process_lines-arguments parse i lines = process_lines-from parse i lines new_tool_call_detector

length-collect :
    (n i : ℕ) (calls : List (ℕ × BufferedToolCall))
    → ((j : ℕ) → j < n → is_some (lookup (i + j) calls) ≡ true)
    → length (collect n i calls) ≡ n
length-collect zero i calls h = refl
length-collect (suc n) i calls h = elim (Option-cases (lookup i calls)) [
  | inl e ↦ absurd (missing e)
  | inr (b, e) ↦ rw (e, collect) (ap suc (length-collect n (suc i) calls later))
]
  where
    at_start : is_some (lookup i calls) ≡ true
    at_start = ap (λ (j : ℕ). is_some (lookup j calls)) (omega arith) ∙ h 0 (omega arith)

    missing : lookup i calls ≡ none → ⊥
    missing e = let k : false ≡ true = sym (ap (is_some {A = BufferedToolCall}) e) ∙ at_start in cc

    later : (j : ℕ) → j < n → is_some (lookup (suc i + j) calls) ≡ true
    later j k = ap (λ (m : ℕ). is_some (lookup m calls)) (omega arith) ∙ h (suc j) (omega arith)

-- If the stream has ended with tool calls whose indices are 0, 1 and so on without a gap, all of them are
-- returned.
pub length-get_tool_calls :
    (t : ToolCallDetector)
    → is_complete t ≡ true
    → ((j : ℕ) → j < length t.tool_calls → is_some (lookup j t.tool_calls) ≡ true)
    → length (get_tool_calls t) ≡ length t.tool_calls
unfolding get_tool_calls
length-get_tool_calls t done h = rw done (
    length-collect (length t.tool_calls) 0 t.tool_calls
      (λ j k. ap (λ (m : ℕ). is_some (lookup m t.tool_calls)) (omega arith) ∙ h j k))
