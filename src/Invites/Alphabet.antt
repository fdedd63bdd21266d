-- ===== src/Invites/Alphabet.antt =====
-- Which codes are generated (internal/invitecode/utils.go).
use enchanted_proxy.Prelude.{
  ◌==◌, ◌<◌, ℕ, zero, suc, Bool, true, false, List, [], ◌∷◌, some, Text, if◌then◌else◌, length, map,
  any, tally, All, ◌≡◌, refl, arith,
}
use enchanted_proxy.Invites.Generate.{alphabet, letter, generate_nano_id_with_length}

-- The bytes below a bound.
abbrev pub below : ℕ → List ℕ
below zero = []
below (suc n) = n ∷ below n

abbrev pub every : (ℕ → Bool) → List ℕ → Bool
every p [] = true
every p (x ∷ xs) = if p x then every p xs else false

every-All : (p : ℕ → Bool) (xs : List ℕ) → every p xs ≡ true → All (λ x. p x ≡ true) xs
every-All p [] h = tt
every-All p (x ∷ xs) h = (ground arith, every-All p xs (ground arith))

-- How many of the 256 bytes give this letter.
abbrev pub bytes_for : ℕ → ℕ
bytes_for c = tally (λ b. letter b == c) (below 256)

eight_each : every (λ c. bytes_for c == 8) alphabet ≡ true
unfolding letter
eight_each = refl

abbrev pub is_letter : ℕ → Bool
is_letter c = any (λ x. x == c) alphabet

letters : every (λ b. is_letter (letter b)) (below 256) ≡ true
unfolding letter
letters = refl

every-below : (n : ℕ) (p : ℕ → Bool) (x : ℕ) → every p (below n) ≡ true → x < n → p x ≡ true
every-below zero p x h lt = absurd (omega arith)
every-below (suc n) p x h lt = ground (arith, every-below n p x)

map-letters :
    (bytes : List ℕ)
    → All (λ b. b < 256) bytes
    → (length (map letter bytes) ≡ length bytes) × All (λ c. is_letter c ≡ true) (map letter bytes)
map-letters [] h = (refl, tt)
map-letters (b ∷ bytes) h =
    let rest = map-letters bytes h.1 in
    (omega (arith, rest.0), (every-below 256 (λ x. is_letter (letter x)) b letters h.0, rest.1))

-- A generated id has a letter of the alphabet for each of its random bytes, and every letter of the alphabet comes
-- from exactly eight of the 256 bytes, so that none is likelier than another.
pub generate_nano_id-letters :
    (bytes : List ℕ)
    → All (λ b. b < 256) bytes
    → (id : Text) × (generate_nano_id_with_length (some bytes) ≡ some id)
      × (length id ≡ length bytes)
      × All (λ c. is_letter c ≡ true) id
      × All (λ c. (bytes_for c == 8) ≡ true) alphabet
unfolding generate_nano_id_with_length
generate_nano_id-letters bytes h =
    let m = map-letters bytes h in
    (map letter bytes, refl, m.0, m.1, every-All (λ c. bytes_for c == 8) alphabet eight_each)
