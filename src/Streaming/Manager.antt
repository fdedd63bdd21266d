-- ===== src/Streaming/Manager.antt =====
-- `StreamManager` (internal/streaming/manager.go). A session is a pointer, since its readers change it outside of
-- the manager; `memory` is what the pointers point to.
use enchanted_proxy.Prelude.{
  ◌+◌, ◌-◌, ◌*◌, ◌%◌, ◌^◌, ltb, ℕ, suc, Bool, true, false, List, [], ◌∷◌, ◌++◌, Option, none, some,
  Text, codes, text_key, lookup, insert, if◌then◌else◌, length,
}
use enchanted_proxy.Streaming.Buffer.{StreamChunk}
use enchanted_proxy.Streaming.Session.{StreamSession}

pub record Managed : Type 0 where
  pub session : StreamSession
  pub completed_at : Option ℕ

pub record StreamManager : Type 0 where
  pub sessions : List (Text × ℕ)
  pub total_sessions_created : ℕ
  pub total_sessions_completed : ℕ
  pub total_subscriptions : ℕ

abbrev pub new_stream_manager : StreamManager
new_stream_manager = record {
  sessions = [];
  total_sessions_created = 0;
  total_sessions_completed = 0;
  total_subscriptions = 0;
}

unfoldable pub make_session_key : Text → Text → Text
make_session_key chat_id message_id = chat_id ++ codes ":" ++ message_id

-- An int64 that only grows.
abbrev pub add64 : ℕ → ℕ → ℕ
add64 a b = (a + b) % 2 ^ 64

-- What a caller gets: the session, whether it is new, and whether the body of its own request was closed.
pub record Joined : Type 0 where
  pub session : ℕ
  pub is_new : Bool
  pub body_closed : Bool

abbrev pub existing : Bool → ℕ → Joined
existing closed id = record { session = id; is_new = false; body_closed = closed }

-- The slow path, under the write lock: it looks again. `fresh` is the pointer of a session that would be new; a
-- pending session comes without a body.
abbrev pub create_found : Bool → Text → ℕ → Option ℕ → StreamManager → StreamManager × Joined
create_found has_body key fresh (some id) sm = (sm, existing has_body id)
create_found has_body key fresh none sm = (
  record sm {
    sessions = insert key fresh sm.sessions;
    total_sessions_created = add64 sm.total_sessions_created 1;
  },
  record { session = fresh; is_new = true; body_closed = false },
)

unfoldable pub create_locked : Bool → Text → ℕ → StreamManager → StreamManager × Joined
create_locked has_body key fresh sm = create_found has_body key fresh (lookup key sm.sessions) sm

-- The fast path reads the map; the slow path runs on the manager as it is then.
abbrev pub join_found : Bool → Text → ℕ → Option ℕ → StreamManager → StreamManager × Joined
join_found has_body key fresh (some id) sm = (sm, existing false id)
join_found has_body key fresh none sm = create_locked has_body key fresh sm

unfoldable pub get_or_create_session : Text → Text → ℕ → StreamManager → StreamManager × Joined
get_or_create_session chat_id message_id fresh sm =
    let key = make_session_key chat_id message_id in
    join_found true key fresh (lookup key sm.sessions) sm

unfoldable pub create_pending_session : Text → Text → ℕ → StreamManager → StreamManager × Joined
create_pending_session chat_id message_id fresh sm =
    let key = make_session_key chat_id message_id in
    join_found false key fresh (lookup key sm.sessions) sm

unfoldable pub get_session : Text → Text → StreamManager → Option ℕ
get_session chat_id message_id sm = lookup (make_session_key chat_id message_id) sm.sessions

-- A completed session with a time stamp that is older than `ttl`.
abbrev pub older : ℕ → ℕ → Option ℕ → Bool
older ttl now none = false
older ttl now (some at) = ltb ttl (now - at)

unfoldable pub is_expired_session : ℕ → ℕ → Managed → Bool
is_expired_session ttl now s = if s.session.completed then older ttl now s.completed_at else false

-- The loop of CleanupExpiredSessions; what is left, and how many were removed.
abbrev pub sweep : (ℕ → Bool) → List (Text × ℕ) → List (Text × ℕ) × ℕ
sweep expired [] = ([], 0)
sweep expired ((key, id) ∷ m) =
    let (left, cleaned) = sweep expired m in
    if expired id then (left, suc cleaned) else ((key, id) ∷ left, cleaned)

unfoldable pub cleanup_expired_sessions : ℕ → ℕ → (ℕ → Managed) → StreamManager → StreamManager × ℕ
cleanup_expired_sessions ttl now memory sm =
    let (left, cleaned) = sweep (λ id. is_expired_session ttl now (memory id)) sm.sessions in
    (
      record sm {
        sessions = left;
        total_sessions_completed = add64 sm.total_sessions_completed cleaned;
      },
      cleaned,
    )

abbrev pub bytes_of : List StreamChunk → ℕ
bytes_of [] = 0
bytes_of (c ∷ cs) = length c.line + bytes_of cs

pub record StreamMetrics : Type 0 where
  pub active_streams : ℕ
  pub total_subscribers : ℕ
  pub completed_streams : ℕ
  pub memory_usage_bytes : ℕ

abbrev pub count_session : StreamSession → StreamMetrics → StreamMetrics
count_session s m = record {
  active_streams = if s.completed then m.active_streams else suc m.active_streams;
  total_subscribers = length s.subscribers + m.total_subscribers;
  completed_streams = if s.completed then suc m.completed_streams else m.completed_streams;
  memory_usage_bytes = bytes_of s.chunks + m.memory_usage_bytes;
}

abbrev pub metrics_of : (ℕ → Managed) → List (Text × ℕ) → StreamMetrics
metrics_of memory [] = record {
  active_streams = 0;
  total_subscribers = 0;
  completed_streams = 0;
  memory_usage_bytes = 0;
}
metrics_of memory ((key, id) ∷ m) = count_session (memory id).session (metrics_of memory m)

unfoldable pub get_metrics : (ℕ → Managed) → StreamManager → StreamMetrics
get_metrics memory sm = metrics_of memory sm.sessions

-- One tick of cleanupLoop, in seconds: the time to live is shorter when there is more than 500 MB.
unfoldable pub ttl_for : StreamMetrics → ℕ
ttl_for m = if ltb (500 * 1_024 * 1_024) m.memory_usage_bytes then 60 else 1_800

unfoldable pub cleanup_tick : ℕ → (ℕ → Managed) → StreamManager → StreamManager
cleanup_tick now memory sm =
    (cleanup_expired_sessions (ttl_for (get_metrics memory sm)) now memory sm).0

unfoldable pub record_subscription : StreamManager → StreamManager
record_subscription sm = record sm { total_subscriptions = add64 sm.total_subscriptions 1 }
