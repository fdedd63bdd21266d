-- ===== src/Streaming/Lifecycle.antt =====
-- The life of a stream session under any sequence of operations (internal/streaming/session.go).
use enchanted_proxy.Streaming.Buffer.{StreamChunk}
use enchanted_proxy.Prelude.{
  length-drop, length-append, ltb, insert, length, lookup, drop, Bool, true, false, List, [], ◌∷◌,
  Option, none, some, Text, text_key, refl, inl, inr, arith, Bool-cases, Option-cases,
}
use enchanted_proxy.Streaming.Session.{
  clamp, StopError, new_stream_subscriber, close_all_subscribers, cancel, send, close,
  broadcast_one, close_one, stop, unsubscribe, subscribe, force_complete, mark_completed, store,
  SubscriberOptions, ◌and_then◌, broadcast, StreamSubscriber, StreamSession, Result, returns,
}
use enchanted_proxy.Streaming.Channels.{
  IsOpen, IsSession, Returns, Returns-and_then, each_subscriber-Returns, insert-AllChannels,
  lookup-AllChannels, remove-AllChannels, with_subscribers-Returns,
}

-- What is done to a session: a chunk is read from upstream, a reader takes a chunk or is
-- disconnected, and so on.
pub data Op : Type 0 where
  chunk : StreamChunk → Op
  complete : Option Text → Op
  force : Text → Op
  join : Text → SubscriberOptions → Op
  leave : Text → Op
  stop_by : Text → Text → Op
  read : Text → Op
  disconnect : Text → Op

abbrev take_one : StreamSubscriber → StreamSubscriber
take_one sub = record sub { ch = drop 1 sub.ch }

abbrev pub at_subscriber :
    (StreamSubscriber → StreamSubscriber) → Text → StreamSession → StreamSession
at_subscriber f id s = elim (lookup id s.subscribers) [
  | none ↦ s
  | some sub ↦ record s { subscribers = insert id (f sub) s.subscribers }
]

abbrev pub run_op : Op → StreamSession → Result StreamSession
run_op (chunk c) s = broadcast c (store c s)
run_op (complete err) s = mark_completed err s
run_op (force err) s = force_complete err s
run_op (join id opts) s = returns (subscribe id opts s).0
run_op (leave id) s = returns (unsubscribe id s)
run_op (stop_by by reason) s = stop by reason s and_then λ z. returns z.0
run_op (read id) s = returns (at_subscriber take_one id s)
run_op (disconnect id) s = returns (at_subscriber cancel id s)

unfoldable pub run : List Op → StreamSession → Result StreamSession
run [] s = returns s
run (op ∷ ops) s = run_op op s and_then run ops

broadcast_one-IsOpen :
    (c : StreamChunk) (completed : Bool) (sub : StreamSubscriber)
    → IsOpen completed sub
    → Returns (IsOpen completed) (broadcast_one c sub)
unfolding broadcast_one send
broadcast_one-IsOpen c completed sub h = elim (Bool-cases sub.cancelled) [
  | inl gone ↦ rw gone (rw gone at h)
  | inr there ↦ rw there (elim (Bool-cases sub.closed) [
    | inl shut ↦ absurd (ground arith)
    | inr unshut ↦ rw unshut (elim (Bool-cases (ltb (length sub.ch) sub.capacity)) [
      | inl room ↦
          rw room
            (((ground (arith, length-append sub.ch (c ∷ []))), h.0.1, h.0.2, refl), ground arith)
      | inr full ↦ rw full ((h.0.0, h.0.1, h.0.2, refl), ground arith)
    ])
  ])
]

pub close_one-IsOpen :
    (sub : StreamSubscriber) → IsOpen false sub → Returns (IsOpen true) (close_one sub)
unfolding close_one close
close_one-IsOpen sub h = elim (Bool-cases sub.closed) [
  | inl shut ↦ absurd (ground arith)
  | inr unshut ↦ rw unshut ((h.0.0, h.0.1, h.0.2, refl), refl)
]

broadcast-IsSession :
    (c : StreamChunk) (s : StreamSession) → IsSession s → Returns IsSession (broadcast c s)
unfolding broadcast
broadcast-IsSession c s h =
    with_subscribers-Returns s (IsOpen s.completed) IsSession _
      (each_subscriber-Returns (IsOpen s.completed) (IsOpen s.completed) (broadcast_one c)
        s.subscribers (broadcast_one-IsOpen c s.completed) h)
      (λ m k. k)

mark_completed-IsSession :
    (err : Option Text) (s : StreamSession) → IsSession s → Returns IsSession (mark_completed err s)
unfolding mark_completed close_all_subscribers
mark_completed-IsSession err s h = elim (Bool-cases s.completed) [
  | inl done ↦ rw done (rw done at h)
  | inr running ↦ rw running (
      with_subscribers-Returns (record s { completed = true; completed_error = err }) (IsOpen true)
        IsSession _
        (each_subscriber-Returns (IsOpen false) (IsOpen true) close_one s.subscribers
          close_one-IsOpen (rw running at h))
        (λ m k. k))
]

new_stream_subscriber-IsOpen :
    (opts : SubscriberOptions) (completed : Bool) → IsOpen completed (new_stream_subscriber opts)
unfolding new_stream_subscriber clamp
new_stream_subscriber-IsOpen opts completed = ground arith

take_one-IsOpen :
    (completed : Bool) (sub : StreamSubscriber)
    → IsOpen completed sub
    → IsOpen completed (take_one sub)
take_one-IsOpen completed sub h =
    ((omega (arith, h.0.0, length-drop 1 sub.ch), h.0.1, h.0.2, h.0.3), h.1)

cancel-IsOpen :
    (completed : Bool) (sub : StreamSubscriber)
    → IsOpen completed sub
    → IsOpen completed (cancel sub)
cancel-IsOpen completed sub h = ((h.0.0, h.0.1, h.0.2, ground arith), h.1)

at_subscriber-IsSession :
    (f : StreamSubscriber → StreamSubscriber) (id : Text) (s : StreamSession)
    → ((sub : StreamSubscriber) → IsOpen s.completed sub → IsOpen s.completed (f sub))
    → IsSession s
    → IsSession (at_subscriber f id s)
at_subscriber-IsSession f id s g h = elim (Option-cases (lookup id s.subscribers)) [
  | inl e ↦ rw (e, at_subscriber) h
  | inr (sub, e) ↦
      rw (e, at_subscriber)
        (insert-AllChannels (IsOpen s.completed) id (f sub) s.subscribers
          (g sub (lookup-AllChannels (IsOpen s.completed) id s.subscribers sub h e)) h)
]

stop-IsSession :
    (by reason : Text) (s : StreamSession)
    → IsSession s
    → Returns IsSession (stop by reason s and_then λ z. returns z.0)
unfolding stop store
stop-IsSession by reason s h = elim (Bool-cases s.stopped) [
  | inl a ↦ rw a h
  | inr a ↦ rw a (elim (Bool-cases s.completed) [
    | inl b ↦ rw b (rw b at h)
    | inr b ↦ rw b (
        Returns-and_then (λ (z : StreamSession × Option StopError). IsSession z.0) IsSession _ _
          (Returns-and_then IsSession (λ (z : StreamSession × Option StopError). IsSession z.0) _ _
            (broadcast-IsSession _ _ (rw b at h)) (λ s'' k. k))
          (λ z k. k))
  ])
]

pub run_op-IsSession : (op : Op) (s : StreamSession) → IsSession s → Returns IsSession (run_op op s)
unfolding force_complete store subscribe unsubscribe
run_op-IsSession (chunk c) s h = broadcast-IsSession c (store c s) h
run_op-IsSession (complete err) s h = mark_completed-IsSession err s h
run_op-IsSession (force err) s h =
    mark_completed-IsSession (some err) (record s { cancelled_upstream = true }) h
run_op-IsSession (join id opts) s h =
    insert-AllChannels (IsOpen s.completed) id (new_stream_subscriber opts) s.subscribers
      (new_stream_subscriber-IsOpen opts s.completed) h
run_op-IsSession (leave id) s h = remove-AllChannels (IsOpen s.completed) id s.subscribers h
run_op-IsSession (stop_by by reason) s h = stop-IsSession by reason s h
run_op-IsSession (read id) s h =
    at_subscriber-IsSession take_one id s (take_one-IsOpen s.completed) h
run_op-IsSession (disconnect id) s h =
    at_subscriber-IsSession cancel id s (cancel-IsOpen s.completed) h

-- As long as no replay closes a channel, a session never panics, in whatever order chunks arrive, readers
-- join, read, disconnect and leave, and the stream is stopped or completed: nothing is sent to a closed
-- channel and none is closed twice. And no channel holds more than its capacity, which is between 10 and
-- 1000 chunks.
pub run-IsSession :
    (ops : List Op) (s : StreamSession) → IsSession s → Returns IsSession (run ops s)
unfolding run
run-IsSession [] s h = h
run-IsSession (op ∷ ops) s h =
    Returns-and_then IsSession IsSession (run_op op s) (run ops) (run_op-IsSession op s h)
      (run-IsSession ops)
