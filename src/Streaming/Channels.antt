-- ===== src/Streaming/Channels.antt =====
-- The channels of a session's subscribers (internal/streaming/subscriber.go) and the map that holds them.
use mathlib.Core.Option.{some-injective}
use enchanted_proxy.Prelude.{
  subst, remove, text_eq, insert, length, lookup, ◌≤◌, Bool, true, not, ◌||◌, List, [], ◌∷◌, some,
  Text, text_key, ◌≡◌, inl, inr, arith, All, Bool-cases,
}
use enchanted_proxy.Streaming.Session.{
  with_subscribers, each_subscriber, ◌and_then◌, StreamSubscriber, StreamSession, Result, returns,
  panics,
}

-- A channel: its chunks fit, its capacity is between 10 and 1000, and if it is closed it is cancelled.
abbrev pub IsChannel : StreamSubscriber → Type 0
IsChannel sub =
    (length sub.ch ≤ sub.capacity)
    × (10 ≤ sub.capacity)
    × (sub.capacity ≤ 1_000)
    × ((not sub.closed || sub.cancelled) ≡ true)

abbrev pub AllChannels : (StreamSubscriber → Type 0) → List (Text × StreamSubscriber) → Type 0
AllChannels P = All λ entry. P entry.1

-- While a session is not completed, no channel is closed.
abbrev pub IsOpen : Bool → StreamSubscriber → Type 0
IsOpen completed sub = IsChannel sub × ((completed || not sub.closed) ≡ true)

abbrev pub IsSession : StreamSession → Type 0
IsSession s = AllChannels (IsOpen s.completed) s.subscribers

-- An operation returns a value with a property, and does not panic.
abbrev pub Returns : {A : Type 0} → (A → Type 0) → Result A → Type 0
Returns P (returns a) = P a
Returns P panics = ⊥

pub Returns-and_then :
    {A B : Type 0} (P : A → Type 0) (Q : B → Type 0) (r : Result A) (f : A → Result B)
    → Returns P r
    → ((a : A) → P a → Returns Q (f a))
    → Returns Q (r and_then f)
Returns-and_then P Q (returns a) f h g = g a h
Returns-and_then P Q panics f h g = absurd h

module _ (P : StreamSubscriber → Type 0) where
  pub insert-AllChannels :
      (id : Text) (sub : StreamSubscriber) (m : List (Text × StreamSubscriber))
      → P sub
      → AllChannels P m
      → AllChannels P (insert id sub m)
  insert-AllChannels id sub [] p h = (p, tt)
  insert-AllChannels id sub ((j, x) ∷ m) p h = elim (Bool-cases (text_eq j id)) [
    | inl e ↦ rw e (p, h.1)
    | inr e ↦ rw e (h.0, insert-AllChannels id sub m p h.1)
  ]

  pub remove-AllChannels :
      (id : Text) (m : List (Text × StreamSubscriber))
      → AllChannels P m
      → AllChannels P (remove id m)
  remove-AllChannels id [] h = tt
  remove-AllChannels id ((j, x) ∷ m) h = elim (Bool-cases (text_eq j id)) [
    | inl e ↦ rw e (remove-AllChannels id m h.1)
    | inr e ↦ rw e (h.0, remove-AllChannels id m h.1)
  ]

  pub lookup-AllChannels :
      (id : Text) (m : List (Text × StreamSubscriber)) (sub : StreamSubscriber)
      → AllChannels P m
      → lookup id m ≡ some sub
      → P sub
  lookup-AllChannels id [] sub h e = cc
  lookup-AllChannels id ((j, x) ∷ m) sub h e = elim (Bool-cases (text_eq j id)) [
    | inl same ↦ subst P (some-injective x sub (ground (arith, same))) h.0
    | inr other ↦ lookup-AllChannels id m sub h.1 (ground (arith, other))
  ]

-- An operation on every subscriber keeps and gives what it keeps and gives of each.
pub each_subscriber-Returns :
    (P Q : StreamSubscriber → Type 0) (f : StreamSubscriber → Result StreamSubscriber)
    (m : List (Text × StreamSubscriber))
    → ((sub : StreamSubscriber) → P sub → Returns Q (f sub))
    → AllChannels P m
    → Returns (AllChannels Q) (each_subscriber f m)
each_subscriber-Returns P Q f [] g h = tt
each_subscriber-Returns P Q f ((id, sub) ∷ m) g h =
    Returns-and_then Q (AllChannels Q) (f sub) _ (g sub h.0) (λ sub' q.
      Returns-and_then (AllChannels Q) (AllChannels Q) (each_subscriber f m) _
        (each_subscriber-Returns P Q f m g h.1) (λ m' qs. (q, qs)))

pub with_subscribers-Returns :
    (s : StreamSession) (P : StreamSubscriber → Type 0) (Q : StreamSession → Type 0)
    (r : Result (List (Text × StreamSubscriber)))
    → Returns (AllChannels P) r
    → ((m : List (Text × StreamSubscriber)) → AllChannels P m → Q (record s { subscribers = m }))
    → Returns Q (with_subscribers s r)
with_subscribers-Returns s P Q (returns m) h g = g m h
with_subscribers-Returns s P Q panics h g = h
