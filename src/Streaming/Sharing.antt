-- ===== src/Streaming/Sharing.antt =====
-- Who shares a session of `StreamManager` (internal/streaming/manager.go), while callers, cleanups and the
-- sessions themselves run at the same time.
use mathlib.Core.Option.{some-injective}
use enchanted_proxy.Prelude.{
  ℕ, Bool, true, false, List, [], ◌∷◌, ◌++◌, Option, none, some, Text, text_key, text_eq,
  text_eq_iff, lookup, lookup-insert_self, lookup-insert, ◌==◌, ◌&&◌, ◌≤◌, not, All-append,
  if◌then◌else◌, ◌≡◌, refl, sym, ap, ◌∙◌, arith, ltb, ltb→lt, lt→ltb, ◌<◌, ◌-◌, Bool-cases, inl,
  inr, All,
}
use enchanted_proxy.Streaming.Manager.{
  Managed, StreamManager, Joined, existing, create_found, create_locked, sweep, older,
  is_expired_session, cleanup_expired_sessions, cleanup_tick, get_metrics, ttl_for,
  record_subscription,
}

-- What happens to the manager under one of its locks. A call that misses in the fast path runs its slow path
-- later, on the manager as it is then: `lock` is that second half of GetOrCreateSession (with a body) and of
-- CreatePendingSession.
pub data Event : Type 0 where
  look : Text → Event
  lock : Bool → Text → ℕ → Event
  tick : ℕ → (ℕ → Managed) → Event
  subscribed : Event

-- What the callers get, with the key that each asked for.
abbrev pub found_for : Text → Option ℕ → List (Text × Joined)
found_for key none = []
found_for key (some id) = (key, existing false id) ∷ []

abbrev pub handle : Event → StreamManager → StreamManager × List (Text × Joined)
handle (look key) sm = (sm, found_for key (lookup key sm.sessions))
handle (lock has_body key fresh) sm =
    let (sm', joined) = create_locked has_body key fresh sm in (sm', (key, joined) ∷ [])
handle (tick now memory) sm = (cleanup_tick now memory sm, [])
handle subscribed sm = (record_subscription sm, [])

abbrev pub handle_events : List Event → StreamManager → StreamManager × List (Text × Joined)
handle_events [] sm = (sm, [])
handle_events (e ∷ es) sm =
    let (sm', joins) = handle e sm in
    let (later, more) = handle_events es sm' in (later, joins ++ more)

-- At each tick the session is in progress, or was completed at most a minute before.
abbrev pub spares : ℕ → Event → Bool
spares id (tick now memory) = not (is_expired_session 60 now (memory id))
spares id (look key) = true
spares id (lock has_body key fresh) = true
spares id subscribed = true

-- A caller that asked for the key got the session, as one that was there.
abbrev pub shares : Text → ℕ → Text × Joined → Bool
shares key id (k, joined) =
    if text_eq k key then joined.session == id && not joined.is_new else true

older-longer :
    (ttl now : ℕ) (at : Option ℕ) → 60 ≤ ttl → older 60 now at ≡ false → older ttl now at ≡ false
older-longer ttl now none h k = refl
older-longer ttl now (some at) h k = elim (Bool-cases (ltb ttl (now - at))) [
  | inl e ↦
      (let far : 60 < now - at = (let l = ltb→lt ttl (now - at) e in omega arith) in
        let clash = sym k ∙ lt→ltb 60 (now - at) far in cc)
  | inr e ↦ e
]

guarded :
    (b x y : Bool)
    → (x ≡ false → y ≡ false)
    → (if b then x else false) ≡ false
    → (if b then y else false) ≡ false
guarded true x y f h = f h
guarded false x y f h = refl

is_expired_session-longer :
    (ttl now : ℕ) (s : Managed)
    → 60 ≤ ttl
    → is_expired_session 60 now s ≡ false
    → is_expired_session ttl now s ≡ false
unfolding is_expired_session
is_expired_session-longer ttl now s h =
    guarded s.session.completed (older 60 now s.completed_at) (older ttl now s.completed_at)
      (older-longer ttl now s.completed_at h)

sweep-spares :
    (key : Text) (id : ℕ) (expired : ℕ → Bool) (m : List (Text × ℕ))
    → expired id ≡ false
    → lookup key m ≡ some id
    → lookup key (sweep expired m).0 ≡ some id
sweep-spares key id expired [] h e = cc
sweep-spares key id expired ((k, j) ∷ m) h e = ground (arith, sweep-spares key id expired m h)

ttl_for-least : (memory : ℕ → Managed) (sm : StreamManager) → 60 ≤ ttl_for (get_metrics memory sm)
unfolding ttl_for
ttl_for-least memory sm = ground arith

shares-same :
    (key k : Text) (id j : ℕ) (closed : Bool)
    → (text_eq k key ≡ true → j ≡ id)
    → shares key id (k, existing closed j) ≡ true
shares-same key k id j closed same = ground (arith, same)

shares-other :
    (key k : Text) (id : ℕ) (joined : Joined)
    → text_eq k key ≡ false
    → shares key id (k, joined) ≡ true
shares-other key k id joined other = rw other

same-key :
    (key k : Text) (id j : ℕ) (m : List (Text × ℕ))
    → lookup key m ≡ some id
    → lookup k m ≡ some j
    → text_eq k key ≡ true
    → j ≡ id
same-key key k id j m there found same =
    some-injective j id (sym found ∙ ap (λ x. lookup x m) ((text_eq_iff k key).0 same) ∙ there)

look-shares :
    (key k : Text) (id : ℕ) (o : Option ℕ) (m : List (Text × ℕ))
    → lookup key m ≡ some id
    → lookup k m ≡ o
    → All (λ j. shares key id j ≡ true) (found_for k o)
look-shares key k id none m there found = tt
look-shares key k id (some j) m there found =
    (shares-same key k id j false (same-key key k id j m there found), tt)

create_found-shares :
    (key k : Text) (id fresh : ℕ) (has_body : Bool) (o : Option ℕ) (sm : StreamManager)
    → lookup key sm.sessions ≡ some id
    → lookup k sm.sessions ≡ o
    → let (sm', joined) = create_found has_body k fresh o sm in
      (lookup key sm'.sessions ≡ some id) × (shares key id (k, joined) ≡ true)
create_found-shares key k id fresh has_body (some j) sm there found =
    (there, shares-same key k id j has_body (same-key key k id j sm.sessions there found))
create_found-shares key k id fresh has_body none sm there found =
    elim (Bool-cases (text_eq k key)) [
      | inl same ↦
          (let clash =
              sym found ∙ ap (λ x. lookup x sm.sessions) ((text_eq_iff k key).0 same) ∙ there in
            cc)
      | inr other ↦ (
        lookup-insert k key fresh sm.sessions ∙ rw other there,
        shares-other key k id (record { session = fresh; is_new = true; body_closed = false })
            other,
      )
    ]

handle-spares :
    (key : Text) (id : ℕ) (e : Event) (sm : StreamManager)
    → spares id e ≡ true
    → lookup key sm.sessions ≡ some id
    → let (sm', joins) = handle e sm in
      (lookup key sm'.sessions ≡ some id) × All (λ j. shares key id j ≡ true) joins
unfolding create_locked cleanup_tick cleanup_expired_sessions record_subscription
handle-spares key id (look k) sm h there =
    (there, look-shares key k id (lookup k sm.sessions) sm.sessions there refl)
handle-spares key id (lock has_body k fresh) sm h there =
    let (kept, shared) =
      create_found-shares key k id fresh has_body (lookup k sm.sessions) sm there refl in
    (kept, (shared, tt))
handle-spares key id (tick now memory) sm h there = (
  sweep-spares key id (λ i. is_expired_session (ttl_for (get_metrics memory sm)) now (memory i))
      sm.sessions
      (is_expired_session-longer (ttl_for (get_metrics memory sm)) now (memory id)
        (ttl_for-least memory sm) (ground arith))
      there,
  tt,
)
handle-spares key id subscribed sm h there = (there, tt)

handle_events-spares :
    (key : Text) (id : ℕ) (es : List Event) (sm : StreamManager)
    → All (λ e. spares id e ≡ true) es
    → lookup key sm.sessions ≡ some id
    → let (later, joins) = handle_events es sm in
      (lookup key later.sessions ≡ some id) × All (λ j. shares key id j ≡ true) joins
handle_events-spares key id [] sm h there = (there, tt)
handle_events-spares key id (e ∷ es) sm (now_spared, then_spared) there =
    let (kept, joined) = handle-spares key id e sm now_spared there in
    let (sm', joins) = handle e sm in
    let (kept_on, joined_on) = handle_events-spares key id es sm' then_spared kept in
    (
      kept_on,
      All-append (λ j. shares key id j ≡ true) joins (handle_events es sm').1 joined joined_on,
    )

-- Of the callers for one key that find no session, the first to take the lock creates it; from then on, for as
-- long as the session is in progress and for a minute after its end, every caller for the key gets this session,
-- however their two halves, the cleanups and the calls for other keys interleave.
pub callers_share :
    (has_body : Bool) (key : Text) (fresh : ℕ) (es : List Event) (sm : StreamManager)
    → lookup key sm.sessions ≡ none
    → All (λ e. spares fresh e ≡ true) es
    → let (created, joined) = create_locked has_body key fresh sm in
      let (later, joins) = handle_events es created in
      (joined ≡ record { session = fresh; is_new = true; body_closed = false })
      × (lookup key later.sessions ≡ some fresh)
      × All (λ j. shares key fresh j ≡ true) joins
unfolding create_locked
callers_share has_body key fresh es sm missing spared =
    let (kept, joined) =
      handle_events-spares key fresh es (create_found has_body key fresh none sm).0 spared
        (lookup-insert_self key fresh sm.sessions) in
    rw missing (refl, kept, joined)
