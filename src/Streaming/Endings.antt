-- ===== src/Streaming/Endings.antt =====
-- How a stream ends: `Stop`, `markCompleted` and the end of a replay (internal/streaming/session.go).
use enchanted_proxy.Streaming.Buffer.{StreamChunk}
use enchanted_proxy.Prelude.{
  text_eq, lookup, Bool, true, false, List, [], ◌∷◌, Option, some, Text, text_key, ◌≡◌, refl, ap,
  inl, inr, arith, Bool-cases, Option-cases,
}
use enchanted_proxy.Streaming.Session.{
  each_subscriber, close, finish_replay, close_one, stop, unsubscribe, subscribe, with_subscribers,
  store, close_all_subscribers, StreamSubscriber, mark_completed, broadcast, force_complete,
  StreamSession, Result, returns, panics,
}
use enchanted_proxy.Streaming.Lifecycle.{
  close_one-IsOpen, at_subscriber, run_op-IsSession, run_op, Op, run, chunk, complete, force, join,
  leave, stop_by, read, disconnect,
}
use enchanted_proxy.Streaming.Channels.{
  each_subscriber-Returns, IsOpen, AllChannels, Returns-and_then, IsSession, Returns,
}

-- A property of what is returned, if anything is.
abbrev OnReturn : {A : Type 0} → (A → Type 0) → Result A → Type 0
OnReturn P (returns a) = P a
OnReturn P panics = Unit

Returns-OnReturn :
    {A : Type 0} (P Q : A → Type 0) (r : Result A)
    → Returns P r
    → OnReturn Q r
    → Returns (λ a. P a × Q a) r
Returns-OnReturn P Q (returns a) h k = (h, k)
Returns-OnReturn P Q panics h k = h

with_subscribers-OnReturn :
    (Q : StreamSession → Type 0) (s : StreamSession) (r : Result (List (Text × StreamSubscriber)))
    → ((m : List (Text × StreamSubscriber)) → Q (record s { subscribers = m }))
    → OnReturn Q (with_subscribers s r)
with_subscribers-OnReturn Q s (returns m) h = h m
with_subscribers-OnReturn Q s panics h = tt

-- How a session has ended: whether it was stopped, by whom and why.
abbrev pub Ending : Type 0
Ending = Bool × Text × Text

abbrev pub ending : StreamSession → Ending
ending s = (s.stopped, s.stopped_by, s.stop_reason)

-- A session that was stopped, by this user and for this reason.
abbrev pub WasStopped : Text → Text → StreamSession → Type 0
WasStopped by reason s = ending s ≡ (true, by, reason)

mark_completed-WasStopped :
    (by reason : Text) (err : Option Text) (s : StreamSession)
    → WasStopped by reason s
    → OnReturn (WasStopped by reason) (mark_completed err s)
unfolding mark_completed close_all_subscribers
mark_completed-WasStopped by reason err s h = elim (Bool-cases s.completed) [
  | inl done ↦ rw done h
  | inr running ↦ rw running (
      with_subscribers-OnReturn (WasStopped by reason)
        (record s { completed = true; completed_error = err }) _ (λ m. h))
]

broadcast-WasStopped :
    (by reason : Text) (c : StreamChunk) (s : StreamSession)
    → WasStopped by reason s
    → OnReturn (WasStopped by reason) (broadcast c s)
unfolding broadcast
broadcast-WasStopped by reason c s h = with_subscribers-OnReturn (WasStopped by reason) s _ (λ m. h)

run_op-WasStopped :
    (by reason : Text) (op : Op) (s : StreamSession)
    → WasStopped by reason s
    → OnReturn (WasStopped by reason) (run_op op s)
unfolding force_complete store subscribe unsubscribe stop
run_op-WasStopped by reason (chunk c) s h = broadcast-WasStopped by reason c (store c s) h
run_op-WasStopped by reason (complete err) s h = mark_completed-WasStopped by reason err s h
run_op-WasStopped by reason (force err) s h =
    mark_completed-WasStopped by reason (some err) (record s { cancelled_upstream = true }) h
run_op-WasStopped by reason (join id opts) s h = h
run_op-WasStopped by reason (leave id) s h = h
run_op-WasStopped by reason (stop_by x y) s h =
    rw (ap (λ (e : Ending). e.0) h) (ap (λ (e : Ending). (true, e.1, e.2)) h)
run_op-WasStopped by reason (read id) s h = elim (Option-cases (lookup id s.subscribers)) [
  | inl e ↦ rw (e, at_subscriber) h
  | inr (sub, e) ↦ rw (e, at_subscriber) h
]
run_op-WasStopped by reason (disconnect id) s h = elim (Option-cases (lookup id s.subscribers)) [
  | inl e ↦ rw (e, at_subscriber) h
  | inr (sub, e) ↦ rw (e, at_subscriber) h
]

-- Only the first stop counts: whatever happens to a stopped session, it stays stopped by the same user
-- for the same reason, and no operation panics.
pub run-WasStopped :
    (by reason : Text) (ops : List Op) (s : StreamSession)
    → IsSession s
    → WasStopped by reason s
    → Returns (λ t. IsSession t × WasStopped by reason t) (run ops s)
unfolding run
run-WasStopped by reason [] s i h = (i, h)
run-WasStopped by reason (op ∷ ops) s i h =
    let P : StreamSession → Type 0 = λ t. IsSession t × WasStopped by reason t in
    Returns-and_then P P (run_op op s) (run ops)
      (Returns-OnReturn IsSession (WasStopped by reason) (run_op op s) (run_op-IsSession op s i)
        (run_op-WasStopped by reason op s h))
      (λ t k. run-WasStopped by reason ops t k.0 k.1)

abbrev IsShut : Text → List (Text × StreamSubscriber) → Type 0
IsShut id m = (sub : StreamSubscriber) × (lookup id m ≡ some sub) × (sub.closed ≡ true)

close_one-closed :
    (sub : StreamSubscriber)
    → IsOpen false sub
    → Returns (λ sub'. sub'.closed ≡ true) (close_one sub)
unfolding close_one close
close_one-closed sub h = elim (Bool-cases sub.closed) [
  | inl shut ↦ absurd (ground arith)
  | inr unshut ↦ rw unshut refl
]

-- A completion closes the channel of every subscriber.
each_subscriber-IsShut :
    (id : Text) (m : List (Text × StreamSubscriber)) (sub : StreamSubscriber)
    → AllChannels (IsOpen false) m
    → lookup id m ≡ some sub
    → Returns (IsShut id) (each_subscriber close_one m)
each_subscriber-IsShut id [] sub h e = cc
each_subscriber-IsShut id ((j, x) ∷ m) sub h e = elim (Bool-cases (text_eq j id)) [
  | inl here ↦
      Returns-and_then (λ (y : StreamSubscriber). y.closed ≡ true) (IsShut id) (close_one x) _
        (close_one-closed x h.0)
        (λ y shut.
          Returns-and_then (AllChannels (IsOpen true)) (IsShut id) (each_subscriber close_one m) _
            (each_subscriber-Returns (IsOpen false) (IsOpen true) close_one m close_one-IsOpen h.1)
            (λ m' _. (y, rw here, shut)))
  | inr there ↦
      Returns-and_then (λ (y : StreamSubscriber). y.closed ≡ true) (IsShut id) (close_one x) _
        (close_one-closed x h.0)
        (λ y _.
          Returns-and_then (IsShut id) (IsShut id) (each_subscriber close_one m) _
            (each_subscriber-IsShut id m sub h.1 (ground (arith, there)))
            (λ m' k. (k.0, rw there k.1, k.2)))
]

-- The end of a replay to some reader makes the server panic.
abbrev pub ReplayPanics : Text → StreamSession → Type 0
ReplayPanics id s =
    (sub : StreamSubscriber) × (lookup id s.subscribers ≡ some sub) × (finish_replay s sub ≡ panics)

finish_replay-closed :
    (s : StreamSession) (sub : StreamSubscriber)
    → s.completed ≡ true
    → sub.closed ≡ true
    → finish_replay s sub ≡ panics
unfolding finish_replay close_one close
finish_replay-closed s sub done shut = rw (done, shut)

-- A reader that joined while the stream was running, and whose replay is over only after the stream has
-- completed, makes the server panic: the completion closes its channel, as that of every reader, and the
-- end of the replay closes it again.
pub finish_replay-panics :
    (err : Option Text) (id : Text) (s : StreamSession) (sub : StreamSubscriber)
    → IsSession s
    → s.completed ≡ false
    → lookup id s.subscribers ≡ some sub
    → Returns (ReplayPanics id) (mark_completed err s)
unfolding mark_completed close_all_subscribers
finish_replay-panics err id s sub i running e = rw running (
    with_subscribers-Shut (record s { completed = true; completed_error = err }) _
      (each_subscriber-IsShut id s.subscribers sub (rw running at i) e) refl)
  where
    with_subscribers-Shut :
        (t : StreamSession) (r : Result (List (Text × StreamSubscriber)))
        → Returns (IsShut id) r
        → t.completed ≡ true
        → Returns (ReplayPanics id) (with_subscribers t r)
    with_subscribers-Shut t (returns m) k done =
        (k.0, k.1, finish_replay-closed (record t { subscribers = m }) k.0 done k.2)
    with_subscribers-Shut t panics k done = k
