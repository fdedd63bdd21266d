-- ===== src/Streaming/Buffer.antt =====
-- `StreamChunk` of internal/streaming/types.go, without its time stamp, and `storeChunk` of
-- internal/streaming/session.go.
use enchanted_proxy.Prelude.{
  drop, take, length, leb, ltb, ℕ, ◌-◌, Bool, List, [], ◌∷◌, ◌++◌, Text, if◌then◌else◌,
}

pub record StreamChunk : Type 0 where
  pub index : ℕ
  pub line : Text
  pub is_final : Bool
  pub is_error : Bool

abbrev pub max_chunks : ℕ
max_chunks = 10_000

abbrev pub max_chunk_size : ℕ
max_chunk_size = 1_048_576

unfoldable pub truncate : StreamChunk → StreamChunk
truncate c =
    if ltb max_chunk_size (length c.line) then record c { line = take max_chunk_size c.line } else c

-- The buffer before the chunk is appended: a full one keeps its first and its last chunks.
unfoldable pub make_room : List StreamChunk → List StreamChunk
make_room chunks =
    if leb max_chunks (length chunks)
    then take 100 chunks ++ drop (length chunks - 9_900) chunks
    else chunks

unfoldable pub store_chunk : List StreamChunk → StreamChunk → List StreamChunk
unfolding make_room truncate
store_chunk chunks c = make_room chunks ++ truncate c ∷ []
