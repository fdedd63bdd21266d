-- ===== src/Fai/Encoding.antt =====
-- The bytes of an event as the contract writes them, and their decoding (internal/fai/service.go).
use native.Mathlib.Nat.{pow-succ'}
use enchanted_proxy.Prelude.{
  ◌+◌, ◌*◌, ◌/◌, ◌%◌, ◌^◌, ◌<◌, ℕ, zero, suc, List, [], ◌∷◌, ◌++◌, some, length, take, ◌≡◌, refl,
  sym, ap, ◌∙◌, arith, length-append, take-append, drop-append_skip, take_all, append_assoc,
}
use enchanted_proxy.Fai.Event.{decode, hex, from_bytes, slice, Payment}

abbrev pub zeros : ℕ → List ℕ
zeros zero = []
zeros (suc n) = 0 ∷ zeros n

-- A number in so many bytes, big-endian.
abbrev pub to_bytes : ℕ → ℕ → List ℕ
to_bytes zero n = []
to_bytes (suc k) n = to_bytes k (n / 256) ++ n % 256 ∷ []

-- Each argument in a word of 32 bytes.
unfoldable pub encode : List ℕ → List ℕ → ℕ → List ℕ → List ℕ
encode id token amount from =
    id ++ (zeros 12 ++ (token ++ (to_bytes 32 amount ++ (zeros 12 ++ from))))

length-to_bytes : (k n : ℕ) → length (to_bytes k n) ≡ k
length-to_bytes zero n = refl
length-to_bytes (suc k) n =
    omega (arith, length-append (to_bytes k (n / 256)) (n % 256 ∷ []), length-to_bytes k (n / 256))

from_bytes-append :
    (a b : ℕ) (xs : List ℕ) → from_bytes a (xs ++ b ∷ []) ≡ from_bytes a xs * 256 + b
from_bytes-append a b [] = refl
from_bytes-append a b (x ∷ xs) = from_bytes-append (a * 256 + x) b xs

from_bytes-to_bytes : (k n : ℕ) → n < 256 ^ k → from_bytes 0 (to_bytes k n) ≡ n
from_bytes-to_bytes zero n h = omega arith
from_bytes-to_bytes (suc k) n h =
    let e : 256 ^ suc k ≡ 256 * 256 ^ k = pow-succ' 256 k in
    from_bytes-append 0 (n % 256) (to_bytes k (n / 256))
    ∙ omega (arith, from_bytes-to_bytes k (n / 256) (omega (arith, e)))

slice-middle :
    (start len : ℕ) (xs ys zs : List ℕ)
    → start ≡ length xs
    → len ≡ length ys
    → slice start len (xs ++ (ys ++ zs)) ≡ ys
slice-middle start len xs ys zs h k =
    ap (take len) (drop-append_skip start 0 xs (ys ++ zs) (omega arith))
    ∙ take-append len ys zs (omega arith)
    ∙ take_all len ys (omega arith)

module _ (id token from : List ℕ) (amount : ℕ) (wide : length id ≡ 32) (short : length token ≡ 20)
    (sender : length from ≡ 20) where
  length-encode : length (encode id token amount from) ≡ 128
  unfolding encode
  length-encode = omega (
    arith,
    length-append id (zeros 12 ++ (token ++ (to_bytes 32 amount ++ (zeros 12 ++ from)))),
    length-append (zeros 12) (token ++ (to_bytes 32 amount ++ (zeros 12 ++ from))),
    length-append token (to_bytes 32 amount ++ (zeros 12 ++ from)),
    length-append (to_bytes 32 amount) (zeros 12 ++ from),
    length-append (zeros 12) from,
    length-to_bytes 32 amount,
  )

  slice-id : slice 0 32 (encode id token amount from) ≡ id
  unfolding encode
  slice-id = slice-middle 0 32 [] id _ (omega arith) (omega arith)

  slice-token : slice 44 20 (encode id token amount from) ≡ token
  unfolding encode
  slice-token =
      ap (slice 44 20) (sym (append_assoc id (zeros 12) _))
      ∙ slice-middle 44 20 (id ++ zeros 12) token _ (omega (arith, length-append id (zeros 12)))
          (omega arith)

  slice-amount : slice 64 32 (encode id token amount from) ≡ to_bytes 32 amount
  unfolding encode
  slice-amount =
      ap (slice 64 32)
        (sym (append_assoc id (zeros 12) _) ∙ sym (append_assoc (id ++ zeros 12) token _))
      ∙ slice-middle 64 32 ((id ++ zeros 12) ++ token) (to_bytes 32 amount) _
          (omega (arith, length-append id (zeros 12), length-append (id ++ zeros 12) token))
          (omega (arith, length-to_bytes 32 amount))

abbrev payment_of : List ℕ → List ℕ → List ℕ → Payment
payment_of id token amount = record {
  payment_id = hex id;
  token = token;
  amount = from_bytes 0 amount;
}

-- What the contract writes is what the service reads: the id in hexadecimal, the address of the token, and any
-- amount of 256 bits.
pub decode-encode :
    (id token from : List ℕ) (amount : ℕ)
    → length id ≡ 32
    → length token ≡ 20
    → length from ≡ 20
    → amount < 256 ^ 32
    → decode (encode id token amount from)
      ≡ some (record { payment_id = hex id; token = token; amount = amount })
unfolding decode
decode-encode id token from amount wide short sender small =
    rw (length-encode id token from amount wide short sender) (ap (λ (r : Payment). some r) fields)
  where
    fields :
        payment_of
          (slice 0 32 (encode id token amount from))
          (slice 44 20 (encode id token amount from))
          (slice 64 32 (encode id token amount from))
        ≡ record { payment_id = hex id; token = token; amount = amount }
    fields = cc (
      slice-id id token from amount wide short sender,
      slice-token id token from amount wide short sender,
      slice-amount id token from amount wide short sender,
      from_bytes-to_bytes 32 amount small,
    )
