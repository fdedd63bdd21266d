-- ===== src/Streaming/Window.antt =====
-- The buffer of a stream as a window on all of its chunks (`storeChunk`, internal/streaming/session.go).
use enchanted_proxy.Streaming.Buffer.{truncate, make_room, store_chunk, StreamChunk}
use Prim.Native.Nat.{min}
use enchanted_proxy.Prelude.{
  le→leb, take-append, drop-append, drop-append_skip, drop-drop, take_all, append-nil, append_assoc,
  ltb→lt, Bool-cases, length-drop, length-take, take-append-drop, length-append, lt→ltb, ltb, take,
  drop, length, ℕ, suc, ◌+◌, ◌-◌, ◌≤◌, ◌<◌, List, [], ◌∷◌, ◌++◌, if◌then◌else◌, map, ◌≡◌, refl, sym,
  ap, ◌∙◌, inl, inr, arith,
}

-- The first 100 chunks of a stream and its last 9901 ones; the whole stream, if that is all of it.
abbrev pub kept_from : ℕ → ℕ
kept_from n = if ltb n 10_001 then 100 else n - 9_901

abbrev pub window : List StreamChunk → List StreamChunk
window xs = take 100 xs ++ drop (kept_from (length xs)) xs

-- The buffer after all chunks of a stream were stored in turn.
unfoldable pub store_all : List StreamChunk → List StreamChunk → List StreamChunk
store_all buffer [] = buffer
store_all buffer (c ∷ cs) = store_all (store_chunk buffer c) cs

window-short : (xs : List StreamChunk) → length xs < 10_001 → window xs ≡ xs
window-short xs h = rw (lt→ltb (length xs) 10_001 h) (take-append-drop 100 xs)

length-window : (xs : List StreamChunk) → 10_000 < length xs → length (window xs) ≡ 10_001
length-window xs h = omega (
  arith,
  length-append (take 100 xs) (drop (kept_from (length xs)) xs),
  length-take 100 xs,
  length-drop (kept_from (length xs)) xs,
  kept,
)
  where
    kept : kept_from (length xs) ≡ length xs - 9_901
    kept = ground arith

make_room-short : (ys : List StreamChunk) → length ys < 10_000 → make_room ys ≡ ys
unfolding make_room
make_room-short ys h = ground arith

make_room-full :
    (ys : List StreamChunk)
    → 10_000 ≤ length ys
    → make_room ys ≡ take 100 ys ++ drop (length ys - 9_900) ys
unfolding make_room
make_room-full ys h = rw (le→leb 10_000 (length ys) h, make_room)

module _ (xs : List StreamChunk) (c : StreamChunk) where
  length-snoc : length (xs ++ c ∷ []) ≡ length xs + 1
  length-snoc = omega (arith, length-append xs (c ∷ []))

  -- What a full buffer keeps.
  take-window : 10_000 ≤ length xs → take 100 (window xs) ≡ take 100 xs
  take-window h =
      take-append 100 (take 100 xs) _ (omega (arith, length-take 100 xs))
      ∙ take_all 100 (take 100 xs) (omega (arith, length-take 100 xs))

  drop-window :
      10_000 ≤ length xs
      → drop (length (window xs) - 9_900) (window xs) ≡ drop (length xs - 9_900) xs
  drop-window h = elim (Bool-cases (ltb (length xs) 10_001)) [
    | inl at_limit ↦ rw (window-short xs (ltb→lt _ _ at_limit))
    | inr beyond ↦
        let more : 10_000 < length xs = ground (arith, beyond) in
        drop-append_skip (length (window xs) - 9_900) 1 (take 100 xs)
          (drop (kept_from (length xs)) xs)
          (omega (arith, length-window xs more, length-take 100 xs))
        ∙ drop-drop 1 (kept_from (length xs)) (length xs - 9_900) xs (ground (arith, beyond))
  ]

  full-window : 10_000 ≤ length xs → 10_000 ≤ length (window xs)
  full-window h = elim (Bool-cases (ltb (length xs) 10_001)) [
    | inl at_limit ↦ rw (window-short xs (ltb→lt _ _ at_limit)) h
    | inr beyond ↦
        let more : 10_000 < length xs = ground (arith, beyond) in
        omega (arith, length-window xs more)
  ]

  kept-snoc : 10_000 ≤ length xs → kept_from (length (xs ++ c ∷ [])) ≡ length xs - 9_900
  kept-snoc h = ground (arith, length-snoc)

  window-snoc :
      10_000 ≤ length xs
      → window (xs ++ c ∷ []) ≡ (take 100 xs ++ drop (length xs - 9_900) xs) ++ c ∷ []
  window-snoc h =
      ap (λ (k : ℕ). take 100 (xs ++ c ∷ []) ++ drop k (xs ++ c ∷ [])) (kept-snoc h)
      ∙ ap (λ (ys : List StreamChunk). ys ++ drop (length xs - 9_900) (xs ++ c ∷ []))
          (take-append 100 xs (c ∷ []) (omega arith))
      ∙ ap (λ (ys : List StreamChunk). take 100 xs ++ ys)
          (drop-append (length xs - 9_900) xs (c ∷ []) (omega arith))
      ∙ sym (append_assoc (take 100 xs) (drop (length xs - 9_900) xs) (c ∷ []))

  make_room-window : make_room (window xs) ++ c ∷ [] ≡ window (xs ++ c ∷ [])
  make_room-window = elim (Bool-cases (ltb (length xs) 10_000)) [
    | inl room ↦
        let fits : length xs < 10_000 = ltb→lt _ _ room in
        ap (λ (ys : List StreamChunk). make_room ys ++ c ∷ []) (window-short xs (omega arith))
        ∙ ap (λ (ys : List StreamChunk). ys ++ c ∷ []) (make_room-short xs fits)
        ∙ sym (window-short (xs ++ c ∷ []) (omega (arith, length-snoc)))
    | inr full ↦
        let h : 10_000 ≤ length xs = ground (arith, full) in
        ap (λ (ys : List StreamChunk). ys ++ c ∷ [])
          (make_room-full (window xs) (full-window h)
            ∙ ap (λ (ys : List StreamChunk). ys ++ drop (length (window xs) - 9_900) (window xs))
                (take-window h)
            ∙ ap (λ (ys : List StreamChunk). take 100 xs ++ ys) (drop-window h))
        ∙ sym (window-snoc h)
  ]

store_all-from :
    (cs xs : List StreamChunk) → store_all (window xs) cs ≡ window (xs ++ map truncate cs)
unfolding store_all store_chunk
store_all-from [] xs = ap window (sym (append-nil xs))
store_all-from (c ∷ cs) xs =
    ap (λ (b : List StreamChunk). store_all b cs) (make_room-window xs (truncate c))
    ∙ store_all-from cs (xs ++ truncate c ∷ [])
    ∙ ap window (append_assoc xs (truncate c ∷ []) (map truncate cs))

-- The buffer of a stream holds, each cut to a megabyte, its first 100 chunks and its last 9901 ones, in
-- order; and all of its chunks as long as there are at most 10001.
pub store_all-window : (cs : List StreamChunk) → store_all [] cs ≡ window (map truncate cs)
store_all-window cs = store_all-from cs []

length-map : (cs : List StreamChunk) → length (map truncate cs) ≡ length cs
length-map [] = refl
length-map (c ∷ cs) = ap suc (length-map cs)

-- The buffer never holds more than 10001 chunks, one more than the limit that the code declares; and a
-- stream of more chunks than the limit fills it to that number.
pub length-store_all : (cs : List StreamChunk) → length (store_all [] cs) ≡ min (length cs) 10_001
length-store_all cs = elim (Bool-cases (ltb (length cs) 10_001)) [
  | inl short ↦
      let fits : length cs < 10_001 = ltb→lt _ _ short in
      ap (length {A = StreamChunk})
        (store_all-window cs ∙ window-short (map truncate cs) (omega (arith, length-map cs)))
      ∙ omega (arith, length-map cs)
  | inr long ↦
      let more : 10_001 ≤ length cs = ground (arith, long) in
      ap (length {A = StreamChunk}) (store_all-window cs)
      ∙ length-window (map truncate cs) (omega (arith, length-map cs))
      ∙ omega arith
]
