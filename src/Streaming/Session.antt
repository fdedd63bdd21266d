-- ===== src/Streaming/Session.antt =====
-- `StreamSession` (internal/streaming/session.go) with its subscribers (internal/streaming/subscriber.go).
-- An operation that holds a lock is one step. A send waits for a slow reader no longer than its
-- timeout, so that it fails if the channel is full. What Go panics on is a result of its own.
use enchanted_proxy.Streaming.Buffer.{StreamChunk, store_chunk}
use enchanted_proxy.Prelude.{
  length, remove, ltb, insert, ℕ, Bool, true, false, ◌||◌, List, [], ◌∷◌, ◌++◌, Option, none, some,
  Text, codes, if◌then◌else◌, text_key,
}

pub data Result {ℓ} (A : Type ℓ) : Type ℓ where
  returns : A → Result A
  panics : Result A

infixl 20 ◌and_then◌
abbrev pub ◌and_then◌ {ℓ κ} : {A : Type ℓ} → {B : Type κ} → Result A → (A → Result B) → Result B
returns a and_then f = f a
panics and_then f = panics

-- The channel of a subscriber: the chunks that wait in it, and its capacity.
pub record StreamSubscriber : Type 0 where
  pub ch : List StreamChunk
  pub capacity : ℕ
  pub cancelled : Bool
  pub closed : Bool

pub record SubscriberOptions : Type 0 where
  pub replay_from_start : Bool
  pub buffer_size : ℕ

unfoldable pub clamp : ℕ → ℕ
clamp n = if ltb n 10 then 10 else if ltb 1_000 n then 1_000 else n

unfoldable pub new_stream_subscriber : SubscriberOptions → StreamSubscriber
unfolding clamp
new_stream_subscriber opts = record {
  ch = [];
  capacity = clamp opts.buffer_size;
  cancelled = false;
  closed = false;
}

-- `Send`: the chunk is queued or dropped. On a closed channel it panics.
unfoldable pub send : StreamChunk → StreamSubscriber → Result StreamSubscriber
send c sub =
    if sub.closed
    then panics
    else if ltb (length sub.ch) sub.capacity
    then returns (record sub { ch = sub.ch ++ c ∷ [] })
    else returns sub

abbrev pub cancel : StreamSubscriber → StreamSubscriber
cancel sub = record sub { cancelled = true }

-- `Close`: closing a closed channel panics.
unfoldable pub close : StreamSubscriber → Result StreamSubscriber
close sub = if sub.closed then panics else returns (record sub { closed = true })

pub record StreamSession : Type 0 where
  pub message_id : Text
  pub chunks : List StreamChunk
  pub subscribers : List (Text × StreamSubscriber)
  pub completed : Bool
  pub completed_error : Option Text
  pub stopped : Bool
  pub stopped_by : Text
  pub stop_reason : Text
  pub cancelled_upstream : Bool

abbrev pub new_stream_session : Text → StreamSession
new_stream_session message_id = record {
  message_id = message_id;
  chunks = [];
  subscribers = [];
  completed = false;
  completed_error = none;
  stopped = false;
  stopped_by = [];
  stop_reason = [];
  cancelled_upstream = false;
}

-- An operation on every subscriber in turn.
abbrev pub each_subscriber :
    (StreamSubscriber → Result StreamSubscriber)
    → List (Text × StreamSubscriber)
    → Result (List (Text × StreamSubscriber))
each_subscriber f [] = returns []
each_subscriber f ((id, sub) ∷ subs) =
    f sub and_then λ sub'. each_subscriber f subs and_then λ subs'. returns ((id, sub') ∷ subs')

abbrev pub with_subscribers :
    StreamSession → Result (List (Text × StreamSubscriber)) → Result StreamSession
with_subscribers s (returns subs) = returns (record s { subscribers = subs })
with_subscribers s panics = panics

unfoldable pub broadcast_one : StreamChunk → StreamSubscriber → Result StreamSubscriber
unfolding send
broadcast_one c sub = if sub.cancelled then returns sub else send c sub

unfoldable pub broadcast : StreamChunk → StreamSession → Result StreamSession
unfolding broadcast_one
broadcast c s = with_subscribers s (each_subscriber (broadcast_one c) s.subscribers)

unfoldable pub close_one : StreamSubscriber → Result StreamSubscriber
unfolding close
close_one sub = close (cancel sub)

unfoldable pub close_all_subscribers : StreamSession → Result StreamSession
unfolding close_one
close_all_subscribers s = with_subscribers s (each_subscriber close_one s.subscribers)

unfoldable pub mark_completed : Option Text → StreamSession → Result StreamSession
unfolding close_all_subscribers
mark_completed err s =
    if s.completed
    then returns s
    else close_all_subscribers (record s { completed = true; completed_error = err })

unfoldable pub store : StreamChunk → StreamSession → StreamSession
unfolding store_chunk
store c s = record s { chunks = store_chunk s.chunks c }

-- Adds a subscriber, and says whether a replay to it is started.
unfoldable pub subscribe : Text → SubscriberOptions → StreamSession → StreamSession × Bool
unfolding new_stream_subscriber
subscribe id opts s = (
  record s { subscribers = insert id (new_stream_subscriber opts) s.subscribers },
  opts.replay_from_start || s.completed,
)

-- What a replay does to its subscriber once it has sent all chunks.
unfoldable pub finish_replay : StreamSession → StreamSubscriber → Result StreamSubscriber
unfolding close_one
finish_replay s sub = if s.completed then close_one sub else returns sub

-- Cancels a subscriber and forgets it; its channel stays open.
unfoldable pub unsubscribe : Text → StreamSession → StreamSession
unsubscribe id s = record s { subscribers = remove id s.subscribers }

pub data StopError : Type 0 where
  already_stopped : StopError
  already_completed : StopError

-- The line of the event: in Go it stands in a raw string, so that `\n` is a backslash and an n.
unfoldable pub stop_event : StreamSession → Text → Text → StreamChunk
stop_event s by reason = record {
  index = length s.chunks;
  line =
      codes "event: stream_stopped\\ndata: {\"message_id\":\""
      ++ s.message_id
      ++ codes "\",\"stopped_by\":\""
      ++ by
      ++ codes "\",\"reason\":\""
      ++ reason
      ++ codes "\"}";
  is_final = true;
  is_error = false;
}

unfoldable pub stop : Text → Text → StreamSession → Result (StreamSession × Option StopError)
unfolding stop_event broadcast store
stop by reason s =
    if s.stopped
    then returns (s, some already_stopped)
    else if s.completed
    then returns (s, some already_completed)
    else (let s' = record s {
      stopped = true;
      stopped_by = by;
      stop_reason = reason;
      cancelled_upstream = true;
    } in
        let event = stop_event s by reason in
        broadcast event (store event s') and_then λ s''. returns (s'', none))

unfoldable pub force_complete : Text → StreamSession → Result StreamSession
unfolding mark_completed
force_complete err s = mark_completed (some err) (record s { cancelled_upstream = true })
