-- ===== src/Streaming/Keys.antt =====
-- The keys of the sessions of `StreamManager` (internal/streaming/manager.go).
use enchanted_proxy.Prelude.{
  any-none, drop, ◌==◌, ℕ, Bool, false, [], ◌∷◌, Text, any, ◌≡◌, refl, ap, ◌∙◌, arith,
}
use enchanted_proxy.Streaming.Manager.{make_session_key}

abbrev pub has_colon : Text → Bool
has_colon = any (λ c. c == b':')

abbrev front : Text → ℕ
front [] = 0
front (c ∷ s) = c

-- Chats without a colon in their ids do not share a session: a key stands for one chat and one message.
pub make_session_key-injective :
    (c m c' m' : Text)
    → has_colon c ≡ false
    → has_colon c' ≡ false
    → make_session_key c m ≡ make_session_key c' m'
    → (c ≡ c') × (m ≡ m')
unfolding make_session_key
make_session_key-injective [] m [] m' h h' e = (refl, ap (drop 1) e)
make_session_key-injective [] m (y ∷ c') m' h h' e = let q = ap front e in ground arith
make_session_key-injective (x ∷ c) m [] m' h h' e = let q = ap front e in ground arith
make_session_key-injective (x ∷ c) m (y ∷ c') m' h h' e =
    let q = ap front e in
    let (same, rest) =
      make_session_key-injective c m c' m' (any-none (λ z. z == b':') x c h).1
        (any-none (λ z. z == b':') y c' h').1 (ap (drop 1) e) in
    (ap (λ z. z ∷ c) q ∙ ap (◌∷◌ y) same, rest)
