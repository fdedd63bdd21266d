-- ===== src/Invites/Generate.antt =====
-- How codes are made (internal/invitecode/utils.go). The random bytes and the hash function are parameters.
use enchanted_proxy.Prelude.{
  leb, ◌-◌, ◌%◌, ℕ, List, ◌++◌, Option, none, some, Text, codes, if◌then◌else◌, length, get_elem?,
  map,
}

-- Without 0, O, 1 and I.
abbrev pub alphabet : Text
alphabet = codes "ABCDEFGHJKLMNPQRSTUVWXYZ23456789"

abbrev pub char_at : Option ℕ → ℕ
char_at none = 0
char_at (some c) = c

-- alphabet[b%byte(len(alphabet))]
unfoldable pub letter : ℕ → ℕ
letter b = char_at (get_elem? alphabet (b % length alphabet))

-- GenerateNanoIDWithLength on the bytes that the random source gives; `none` is its error.
unfoldable pub generate_nano_id_with_length : Option (List ℕ) → Option Text
generate_nano_id_with_length none = none
generate_nano_id_with_length (some bytes) = some (map letter bytes)

-- GenerateCodeWithPrefix: the source is asked for as many bytes as are missing.
unfoldable pub generate_code_with_prefix : (ℕ → Option (List ℕ)) → Text → ℕ → Option Text
unfolding generate_nano_id_with_length
generate_code_with_prefix random start total =
    if leb total (length start)
    then some start
    else elim (generate_nano_id_with_length (random (total - length start))) [
      | none ↦ none
      | some rest ↦ some (start ++ rest)
    ]
