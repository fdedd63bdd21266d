-- ===== src/Glm.antt =====
-- internal/streaming/glm_content_filter.go: the filter that takes tool calls in XML out of the text of a
-- stream. `Search` has the searches in a text, `Call` the parser of a tool call, `Filter` the filter; `Scan`
-- describes it, and the other modules compare the two.
pub mod Search
pub mod Call
pub mod Filter
pub mod Prefixes
pub mod Starts
pub mod Scan
pub mod Passes
pub mod Rest
pub mod Rounds
pub mod Chunks
pub mod Leaks
mod Tests
