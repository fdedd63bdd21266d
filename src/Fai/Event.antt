-- ===== src/Fai/Event.antt =====
-- The event `PaymentReceived(bytes32 paymentId, address token, uint256 amount, address from)` as
-- `handlePaymentReceivedEvent` (internal/fai/service.go) reads it. Bytes are numbers below 256.
use enchanted_proxy.Prelude.{
  ltb, ◌+◌, ◌*◌, ◌/◌, ◌%◌, ℕ, Bool, List, [], ◌∷◌, Option, none, some, Text, if◌then◌else◌, length,
  take, drop,
}

-- A log of the chain: whether its first topic is the event's signature, its bytes, and where it stands.
pub record Log : Type 0 where
  pub is_payment : Bool
  pub bytes : List ℕ
  pub block_number : ℕ
  pub tx_hash : Text

pub record Payment : Type 0 where
  pub payment_id : Text
  pub token : List ℕ
  pub amount : ℕ

-- hex.EncodeToString
abbrev pub hex_digit : ℕ → ℕ
hex_digit d = if ltb d 10 then b'0' + d else 87 + d

abbrev pub hex : List ℕ → Text
hex [] = []
hex (b ∷ bs) = hex_digit (b / 16) ∷ hex_digit (b % 16) ∷ hex bs

-- big.Int.SetBytes: big-endian.
abbrev pub from_bytes : ℕ → List ℕ → ℕ
from_bytes n [] = n
from_bytes n (b ∷ bs) = from_bytes (n * 256 + b) bs

-- vLog.Data[from:to]
abbrev pub slice : ℕ → ℕ → List ℕ → List ℕ
slice from len xs = take len (drop from xs)

-- `none` for fewer than 128 bytes.
unfoldable pub decode : List ℕ → Option Payment
decode bytes =
    if ltb (length bytes) 128
    then none
    else some (record {
      payment_id = hex (slice 0 32 bytes);
      token = slice 44 20 bytes;
      amount = from_bytes 0 (slice 64 32 bytes);
    })
