-- ===== src/KeyShare/Listeners.antt =====
-- The connections that are there, as the reference for the manager of
-- internal/keyshare/websocket_manager.go, and the sets of the manager.
use enchanted_proxy.Prelude.{
  sym, Option-cases, ◌==◌, Bool, true, false, not, List, [], ◌∷◌, Option, none, some, Text, text_eq,
  if◌then◌else◌, text_key, nat_key, lookup, insert, remove, select, any, map, ◌≡◌, refl, ap, ◌∙◌,
  arith, Bool-cases, inl, inr, lookup-insert, lookup-remove, text_eq_iff,
}
use enchanted_proxy.KeyShare.Hub.{
  Conn, WebSocketManager, text_or_empty, set_at, set_delete, join_set, put_set, leave_set,
  register_connection, unregister_connection,
}

-- A connection with its session and its user.
pub record Listener : Type 0 where
  pub conn : Conn
  pub session : Text
  pub user : Text

-- What happens to the manager: a new connection is registered, or one is unregistered.
pub data Op : Type 0 where
  join : Text → Text → Conn → Op
  leave : Conn → Op

abbrev pub apply : Op → WebSocketManager → WebSocketManager
apply (join session user c) m = register_connection session user c m
apply (leave c) m = unregister_connection c m

unfoldable pub apply_all : List Op → WebSocketManager → WebSocketManager
apply_all [] m = m
apply_all (op ∷ ops) m = apply_all ops (apply op m)

-- The reference: the connections that are there, newest first.
abbrev pub step : Op → List Listener → List Listener
step (join session user c) ls = record { conn = c; session = session; user = user } ∷ ls
step (leave c) ls = select (λ (l : Listener). not (l.conn == c)) ls

unfoldable pub present : List Op → List Listener → List Listener
present [] ls = ls
present (op ∷ ops) ls = present ops (step op ls)

abbrev pub is_present : Conn → List Listener → Bool
is_present c = any λ (l : Listener). l.conn == c

-- A connection is new when it is registered.
abbrev pub IsFresh : List Op → List Listener → Type 0
IsFresh [] ls = Unit
IsFresh (join session user c ∷ ops) ls =
    (is_present c ls ≡ false) × IsFresh ops (step (join session user c) ls)
IsFresh (leave c ∷ ops) ls = IsFresh ops (step (leave c) ls)

-- The connections whose session, or whose user, is this one.
abbrev pub at_key : (Listener → Text) → Text → List Listener → List Conn
at_key f k ls = map (λ (l : Listener). l.conn) (select (λ (l : Listener). text_eq (f l) k) ls)

abbrev pub key_of : (Listener → Text) → Conn → List Listener → Option Text
key_of f c [] = none
key_of f c (l ∷ ls) = if l.conn == c then some (f l) else key_of f c ls

-- One direction of the manager and its way back show the listeners.
pub record Shows (f : Listener → Text) (sets : List (Text × List Conn)) (back : List (Conn × Text))
    (ls : List Listener) : Type 0 where
  pub there : (k : Text) → set_at k sets ≡ at_key f k ls
  pub return : (c : Conn) → lookup c back ≡ key_of f c ls

pub any-at_key :
    (f : Listener → Text) (k : Text) (c : Conn) (ls : List Listener)
    → is_present c ls ≡ false
    → any (λ x. x == c) (at_key f k ls) ≡ false
any-at_key f k c [] h = refl
any-at_key f k c (l ∷ ls) h = ground (arith, any-at_key f k c ls)

pub set_at-join_set :
    (k j : Text) (c : Conn) (sets : List (Text × List Conn))
    → any (λ x. x == c) (set_at k sets) ≡ false
    → set_at j (join_set k c sets) ≡ (if text_eq k j then c ∷ set_at j sets else set_at j sets)
unfolding join_set
set_at-join_set k j c sets new =
    rw (new, lookup-insert k j)
      (elim (Bool-cases (text_eq k j)) [
        | inl same ↦ rw same (rw ((text_eq_iff k j).0 same))
        | inr other ↦ rw other
      ])

pub set_at-put_set :
    (k j : Text) (xs : List Conn) (sets : List (Text × List Conn))
    → set_at j (put_set k xs sets) ≡ (if text_eq k j then xs else set_at j sets)
set_at-put_set k j [] sets = ground (arith, lookup-remove k j sets)
set_at-put_set k j (x ∷ xs) sets = ground (arith, lookup-insert k j (x ∷ xs) sets)

pub lookup-same :
    (k j : Text) (sets : List (Text × List Conn))
    → text_eq k j ≡ true
    → lookup j sets ≡ lookup k sets
lookup-same k j sets h = rw ((text_eq_iff k j).0 h)

pub set_at-leave_set :
    (k j : Text) (c : Conn) (sets : List (Text × List Conn))
    → set_at j (leave_set k c sets)
      ≡ (if text_eq k j then set_delete c (set_at j sets) else set_at j sets)
unfolding leave_set
set_at-leave_set k j c sets = elim (Option-cases (lookup k sets)) [
  | inl e ↦
      rw (e, leave_set)
        (elim (Bool-cases (text_eq k j)) [
          | inl same ↦ rw (same, lookup-same k j sets same, e)
          | inr other ↦ rw other
        ])
  | inr (xs, e) ↦
      rw (e, leave_set)
        (set_at-put_set k j (set_delete c xs) sets ∙ elim (Bool-cases (text_eq k j)) [
          | inl same ↦ rw (same, lookup-same k j sets same, e)
          | inr other ↦ rw other
        ])
]

-- No connection stands in the list twice.
abbrev pub IsUnique : List Listener → Type 0
IsUnique [] = Unit
IsUnique (l ∷ ls) = (is_present l.conn ls ≡ false) × IsUnique ls

pub is_present-leave :
    (c d : Conn) (ls : List Listener)
    → is_present d ls ≡ false
    → is_present d (step (leave c) ls) ≡ false
is_present-leave c d [] h = refl
is_present-leave c d (l ∷ ls) h = ground (arith, is_present-leave c d ls)

pub IsUnique-leave : (c : Conn) (ls : List Listener) → IsUnique ls → IsUnique (step (leave c) ls)
IsUnique-leave c [] u = tt
IsUnique-leave c (l ∷ ls) u = elim (Bool-cases (l.conn == c)) [
  | inl same ↦ rw same (IsUnique-leave c ls u.1)
  | inr other ↦ rw other (is_present-leave c l.conn ls u.0, IsUnique-leave c ls u.1)
]

module _ (f : Listener → Text) where
  pub at_key-leave :
      (k : Text) (c : Conn) (ls : List Listener)
      → at_key f k (step (leave c) ls) ≡ set_delete c (at_key f k ls)
  at_key-leave k c [] = refl
  at_key-leave k c (l ∷ ls) = ground (arith, at_key-leave k c ls)

  pub set_delete-absent :
      (k : Text) (c : Conn) (ls : List Listener)
      → is_present c ls ≡ false
      → set_delete c (at_key f k ls) ≡ at_key f k ls
  set_delete-absent k c [] h = refl
  set_delete-absent k c (l ∷ ls) h = ground (arith, set_delete-absent k c ls)

  pub set_delete-elsewhere :
      (k : Text) (c : Conn) (ls : List Listener)
      → IsUnique ls
      → text_eq (text_or_empty (key_of f c ls)) k ≡ false
      → set_delete c (at_key f k ls) ≡ at_key f k ls
  set_delete-elsewhere k c [] u h = refl
  set_delete-elsewhere k c (l ∷ ls) u h = elim (Bool-cases (l.conn == c)) [
    | inl same ↦ ground (arith, same, set_delete-absent k c ls)
    | inr other ↦ ground (arith, other, set_delete-elsewhere k c ls)
  ]

  pub key_of-leave :
      (c d : Conn) (ls : List Listener)
      → key_of f d (step (leave c) ls) ≡ (if c == d then none else key_of f d ls)
  key_of-leave c d [] = ground arith
  key_of-leave c d (l ∷ ls) = ground (arith, key_of-leave c d ls)

  pub join-Shows :
      (l : Listener) (sets : List (Text × List Conn)) (back : List (Conn × Text))
      (ls : List Listener)
      → is_present l.conn ls ≡ false
      → Shows f sets back ls
      → Shows f (join_set (f l) l.conn sets) (insert l.conn (f l) back) (l ∷ ls)
  join-Shows l sets back ls new h = record {
    there = λ k.
        set_at-join_set (f l) k l.conn sets
          (ap (any (λ x. x == l.conn)) (h.there (f l)) ∙ any-at_key f (f l) l.conn ls new)
        ∙ rw (h.there k)
            (elim (Bool-cases (text_eq (f l) k)) [ inl same ↦ rw same | inr other ↦ rw other ]);
    return = λ c. lookup-insert l.conn c (f l) back ∙ rw (h.return c);
  }

  pub leave-Shows :
      (c : Conn) (sets : List (Text × List Conn)) (back : List (Conn × Text)) (ls : List Listener)
      → IsUnique ls
      → Shows f sets back ls
      → Shows f
          (leave_set (text_or_empty (lookup c back)) c sets)
          (remove c back)
          (step (leave c) ls)
  leave-Shows c sets back ls u h = record {
    there = λ k.
        set_at-leave_set (text_or_empty (lookup c back)) k c sets
        ∙ rw (h.return c, h.there k)
            (elim (Bool-cases (text_eq (text_or_empty (key_of f c ls)) k)) [
              | inl same ↦ rw (same, at_key-leave k c ls)
              | inr other ↦
                  rw other (sym (set_delete-elsewhere k c ls u other) ∙ sym (at_key-leave k c ls))
            ]);
    return = λ d. lookup-remove c d back ∙ rw (h.return d) (sym (key_of-leave c d ls));
  }
