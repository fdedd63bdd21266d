-- ===== src/Streaming/Tests.antt =====
-- Runs of a stream session with two readers.
use enchanted_proxy.Streaming.Manager.{
  new_stream_manager, create_locked, is_expired_session, make_session_key,
}
use enchanted_proxy.Streaming.Sharing.{
  look, callers_share, shares, handle_events, tick, lock, Event,
}
use enchanted_proxy.Streaming.Assembly.{
  process_lines-arguments, arguments_in, process_lines, arguments_at,
}
use enchanted_proxy.Streaming.Tools.{
  merge, add_delta, add_deltas, process_choice, process_chunk, new_tool_call_detector, Choice,
  ToolCallDelta, ToolCallDetector,
}
use enchanted_proxy.Streaming.Endings.{finish_replay-panics, ReplayPanics}
use enchanted_proxy.Streaming.Buffer.{make_room, store_chunk, truncate, StreamChunk}
use enchanted_proxy.Streaming.Window.{store_all-window, window, store_all}
use enchanted_proxy.Prelude.{
  All, nat_key, some, ◌==◌, lookup, if◌then◌else◌, Option, is_some, ◌<◌, Text, zero, suc, map, ℕ,
  true, false, List, [], ◌∷◌, ◌≡◌, refl, none, codes, arith, text_key,
}
use enchanted_proxy.Streaming.Session.{
  send, broadcast_one, broadcast, store, clamp, new_stream_subscriber, mark_completed, subscribe,
  new_stream_session, StreamSession, StreamSubscriber, SubscriberOptions, returns,
}
use enchanted_proxy.Streaming.Lifecycle.{
  run-IsSession, Op, run, chunk, complete, join, leave, stop_by,
}
use enchanted_proxy.Streaming.Channels.{IsSession, Returns}

abbrev data_chunk : ℕ → StreamChunk
data_chunk n = record { index = n; line = codes "data: x"; is_final = false; is_error = false }

abbrev opts : SubscriberOptions
opts = record { replay_from_start = true; buffer_size = 5 }

abbrev fresh : StreamSession
fresh = new_stream_session (codes "m")

abbrev reader : StreamSubscriber
reader = record { ch = data_chunk 0 ∷ []; capacity = 10; cancelled = false; closed = false }

abbrev watched : StreamSession
watched = record fresh { chunks = data_chunk 0 ∷ []; subscribers = (codes "r", reader) ∷ [] }

run-watched : run (join (codes "r") opts ∷ chunk (data_chunk 0) ∷ []) fresh ≡ returns watched
unfolding run subscribe new_stream_subscriber clamp store store_chunk make_room truncate broadcast
    broadcast_one send
run-watched = refl

abbrev halted : StreamSession
halted = record fresh {
  stopped = true;
  stopped_by = codes "u";
  stop_reason = codes "user_cancelled";
}

abbrev script : List Op
script =
    join (codes "r") opts
    ∷ chunk (data_chunk 0)
    ∷ stop_by (codes "v") (codes "timeout")
    ∷ complete none
    ∷ leave (codes "r")
    ∷ []

store_all-window_example :
    store_all [] (data_chunk 0 ∷ data_chunk 1 ∷ [])
    ≡ window (map truncate (data_chunk 0 ∷ data_chunk 1 ∷ []))
store_all-window_example = store_all-window (data_chunk 0 ∷ data_chunk 1 ∷ [])

run-IsSession_example : Returns IsSession (run script fresh)
run-IsSession_example = run-IsSession script fresh tt

finish_replay-panics_example : Returns (ReplayPanics (codes "r")) (mark_completed none watched)
finish_replay-panics_example =
    finish_replay-panics none (codes "r") watched reader
      (((omega arith, omega arith, omega arith, refl), refl), tt) refl refl

abbrev delta : ℕ → Text → Text → ToolCallDelta
delta i name arguments = record {
  index = i;
  id = codes "c";
  call_type = codes "function";
  name = name;
  arguments = arguments;
}

abbrev part : ToolCallDelta → Choice
part d = record { tool_calls = d ∷ []; finish_reason = [] }

abbrev parse_line : Text → Option Choice
parse_line (c ∷ []) =
    if c == b'0'
    then some (part (delta 0 (codes "f") (codes "{")))
    else if c == b'1'
    then some (part (delta 1 (codes "g") (codes "[]")))
    else if c == b'2'
    then some (part (delta 0 [] (codes "}")))
    else some (record { tool_calls = []; finish_reason = codes "tool_calls" })
parse_line _ = none

abbrev call_lines : List Text
call_lines =
    codes "data: 0"
    ∷ codes "data: 1"
    ∷ codes ": ping"
    ∷ codes "data: 2"
    ∷ codes "data: 3"
    ∷ codes "data: [DONE]"
    ∷ []

abbrev assembled : ToolCallDetector
assembled = record {
  tool_calls =
      (
        0,
        record {
          id = codes "c";
          call_type = codes "function";
          name = codes "f";
          arguments = codes "{}";
        },
      )
      ∷ (
        1,
        record {
          id = codes "c";
          call_type = codes "function";
          name = codes "g";
          arguments = codes "[]";
        },
      )
      ∷ [];
  finish_reason = codes "tool_calls";
  has_tool_calls = true;
}

process_lines-assembled : process_lines parse_line new_tool_call_detector call_lines ≡ assembled
unfolding process_lines process_chunk process_choice add_deltas add_delta merge
process_lines-assembled = refl

process_lines-arguments_example :
    arguments_at 0 (process_lines parse_line new_tool_call_detector call_lines).tool_calls
    ≡ arguments_in parse_line 0 call_lines
process_lines-arguments_example = process_lines-arguments parse_line 0 call_lines

indices_present : (j : ℕ) → j < 2 → is_some (lookup j assembled.tool_calls) ≡ true
indices_present zero h = refl
indices_present (suc zero) h = refl
indices_present (suc (suc j)) h = absurd (omega arith)

abbrev chat_key : Text
chat_key = make_session_key (codes "chat") (codes "message")

-- While the session is in progress, a second caller that missed takes the lock, a cleanup runs, and a third
-- caller looks.
abbrev joining : List Event
joining =
    lock true chat_key 8
    ∷ tick 4_000
        (λ id. record { session = new_stream_session (codes "message"); completed_at = none })
    ∷ lock false (codes "other:message") 9
    ∷ look chat_key
    ∷ []

callers_share_example :
    let (created, joined) = create_locked true chat_key 7 new_stream_manager in
    let (later, joins) = handle_events joining created in
    (joined ≡ record { session = 7; is_new = true; body_closed = false })
    × (lookup chat_key later.sessions ≡ some 7)
    × All (λ j. shares chat_key 7 j ≡ true) joins
unfolding make_session_key is_expired_session
callers_share_example =
    callers_share true chat_key 7 joining new_stream_manager refl (refl, (refl, (refl, (refl, tt))))
