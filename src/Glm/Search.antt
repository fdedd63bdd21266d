-- ===== src/Glm/Search.antt =====
-- Searches in texts, of Go's package strings, and the tags of internal/streaming/glm_content_filter.go.
use enchanted_proxy.Prelude.{
  ◌||◌, ◌-◌, ℕ, Bool, true, false, List, [], ◌∷◌, Option, none, some, Text, codes, text_eq,
  has_prefix, if◌then◌else◌, length, drop, any,
}

abbrev pub open_tag : Text
open_tag = codes "<tool_call>"

abbrev pub close_tag : Text
close_tag = codes "</tool_call>"

-- The tag that is looked for inside of a call, and outside.
abbrev pub tag_of : Bool → Text
tag_of true = close_tag
tag_of false = open_tag

-- What stands before the first occurrence of a pattern, and after it: strings.Index with the two slices that it
-- is used for.
abbrev pub before_with : ℕ → Option (Text × Text) → Option (Text × Text)
before_with c none = none
before_with c (some (before, after)) = some (c ∷ before, after)

unfoldable pub cut : Text → Text → Option (Text × Text)
cut p [] = if has_prefix [] p then some ([], []) else none
cut p (c ∷ s) =
    if has_prefix (c ∷ s) p then some ([], drop (length p) (c ∷ s)) else before_with c (cut p s)

-- strings.Contains
unfoldable pub contains : Text → Text → Bool
contains [] p = has_prefix [] p
contains (c ∷ s) p = has_prefix (c ∷ s) p || contains s p

-- strings.HasSuffix
abbrev pub has_suffix : Text → Text → Bool
has_suffix [] p = text_eq [] p
has_suffix (c ∷ s) p = text_eq (c ∷ s) p || has_suffix s p

-- The beginnings of the tags, shortest first and longest first, as the code lists them.
abbrev pub opening_partials : List Text
opening_partials =
    codes "<"
    ∷ codes "<t"
    ∷ codes "<to"
    ∷ codes "<too"
    ∷ codes "<tool"
    ∷ codes "<tool_"
    ∷ codes "<tool_c"
    ∷ codes "<tool_ca"
    ∷ codes "<tool_cal"
    ∷ codes "<tool_call"
    ∷ []

abbrev pub closing_partials : List Text
closing_partials =
    codes "<"
    ∷ codes "</"
    ∷ codes "</t"
    ∷ codes "</to"
    ∷ codes "</too"
    ∷ codes "</tool"
    ∷ codes "</tool_"
    ∷ codes "</tool_c"
    ∷ codes "</tool_ca"
    ∷ codes "</tool_cal"
    ∷ codes "</tool_call"
    ∷ []

abbrev pub longest_partials : List Text
longest_partials =
    codes "<tool_call"
    ∷ codes "<tool_cal"
    ∷ codes "<tool_ca"
    ∷ codes "<tool_c"
    ∷ codes "<tool_"
    ∷ codes "<tool"
    ∷ codes "<too"
    ∷ codes "<to"
    ∷ codes "<t"
    ∷ codes "<"
    ∷ []

unfoldable pub has_partial_opening_tag : Text → Bool
has_partial_opening_tag s = any (has_suffix s) opening_partials

unfoldable pub has_partial_closing_tag : Text → Bool
has_partial_closing_tag s = any (has_suffix s) closing_partials

abbrev pub start_of : List Text → Text → ℕ
start_of [] s = length s
start_of (p ∷ ps) s = if has_suffix s p then length s - length p else start_of ps s

unfoldable pub find_partial_tag_start : Text → ℕ
find_partial_tag_start = start_of longest_partials
