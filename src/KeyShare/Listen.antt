-- ===== src/KeyShare/Listen.antt =====
-- The two goroutines that serve one connection at the end of `WebSocketListen`
-- (internal/keyshare/handlers.go): the handler waits for a failed ping, for the expiry of the session or
-- for the channel `done`, the reader waits for a read to fail. Both close `done` when they end.
use enchanted_proxy.Prelude.{Bool, true, false, ◌≡◌, ◌⊎◌, inl, inr, refl, if◌then◌else◌}

pub data Goroutine : Type 0 where
  running : Goroutine
  returned : Goroutine
  panicked : Goroutine

pub record Serving : Type 0 where
  pub done_closed : Bool
  pub conn_closed : Bool
  pub handler : Goroutine
  pub reader : Goroutine

abbrev pub start_serving : Serving
start_serving = record {
  done_closed = false;
  conn_closed = false;
  handler = running;
  reader = running;
}

-- Closing a closed channel panics.
abbrev pub close_channel : Bool → Goroutine
close_channel is_closed = if is_closed then panicked else returned

-- The handler's deferred calls: `done` is closed and, whether or not that panics, the connection too.
unfoldable pub leave_handler : Serving → Serving
leave_handler s = record s {
  done_closed = true;
  conn_closed = true;
  handler = close_channel s.done_closed;
}

unfoldable pub leave_reader : Serving → Serving
leave_reader s = record s { done_closed = true; reader = close_channel s.done_closed }

-- A read fails when the client has gone, and when the connection was closed.
pub data Step (s t : Serving) : Type 0 where
  ping_fails : s.handler ≡ running → t ≡ leave_handler s → Step s t
  expires : s.handler ≡ running → t ≡ leave_handler s → Step s t
  sees_done : s.handler ≡ running → s.done_closed ≡ true → t ≡ leave_handler s → Step s t
  read_fails : s.reader ≡ running → t ≡ leave_reader s → Step s t

pub data Reach (s : Serving) : Serving → Type 0 where
  here : Reach s s
  next : {t u : Serving} → Reach s t → Step t u → Reach s u

-- What can be between the start and the end.
abbrev pub Between : Goroutine → Goroutine → Bool → Type 0
Between running running d = d ≡ false
Between running returned d = d ≡ true
Between returned running d = d ≡ true
Between returned panicked d = d ≡ true
Between panicked returned d = d ≡ true
Between _ _ d = ⊥

abbrev pub IsServing : Serving → Type 0
IsServing s = Between s.handler s.reader s.done_closed

Between-handler :
    (h r : Goroutine) (d : Bool) → h ≡ running → Between h r d → Between (close_channel d) r true
Between-handler running running d e b = rw b refl
Between-handler running returned d e b = rw b refl
Between-handler running panicked d e b = absurd b
Between-handler returned r d e b = cc
Between-handler panicked r d e b = cc

Between-reader :
    (h r : Goroutine) (d : Bool) → r ≡ running → Between h r d → Between h (close_channel d) true
Between-reader running running d e b = rw b refl
Between-reader returned running d e b = rw b refl
Between-reader panicked running d e b = absurd b
Between-reader h returned d e b = cc
Between-reader h panicked d e b = cc

Step-IsServing : {s t : Serving} → Step s t → IsServing s → IsServing t
unfolding leave_handler leave_reader
Step-IsServing {s} (ping_fails r e) h = rw e (Between-handler s.handler s.reader s.done_closed r h)
Step-IsServing {s} (expires r e) h = rw e (Between-handler s.handler s.reader s.done_closed r h)
Step-IsServing {s} (sees_done r d e) h = rw e (Between-handler s.handler s.reader s.done_closed r h)
Step-IsServing {s} (read_fails r e) h = rw e (Between-reader s.handler s.reader s.done_closed r h)

Reach-IsServing : {s t : Serving} → IsServing s → Reach s t → IsServing t
Reach-IsServing h here = h
Reach-IsServing h (next r st) = Step-IsServing st (Reach-IsServing h r)

-- Some goroutine panics: the handler, whose panic the web framework may recover, or the reader, whose panic
-- nothing recovers.
abbrev pub EndsInPanic : Serving → Type 0
EndsInPanic s =
    (s.handler ≡ returned) × (s.reader ≡ panicked) ⊎ (s.handler ≡ panicked) × (s.reader ≡ returned)

goes_on : (s : Serving) → IsServing s → ((t : Serving) × Step s t) ⊎ EndsInPanic s
goes_on s = by_phase s.handler s.reader refl refl
  where
    by_phase :
        (h r : Goroutine)
        → s.handler ≡ h
        → s.reader ≡ r
        → Between h r s.done_closed
        → ((t : Serving) × Step s t) ⊎ EndsInPanic s
    by_phase running running p q b = inl (leave_handler s, expires p refl)
    by_phase running returned p q b = inl (leave_handler s, expires p refl)
    by_phase running panicked p q b = absurd b
    by_phase returned running p q b = inl (leave_reader s, read_fails q refl)
    by_phase returned returned p q b = absurd b
    by_phase returned panicked p q b = inr (inl (p, q))
    by_phase panicked running p q b = absurd b
    by_phase panicked returned p q b = inr (inr (p, q))
    by_phase panicked panicked p q b = absurd b

-- However a connection ends, serving it goes on until one of its two goroutines has returned and the other
-- has panicked: whoever ends second closes the channel again. If the handler returns first, because the
-- session expires or a ping fails, it is the reader that panics.
pub serving_panics :
    (s : Serving) → Reach start_serving s → ((t : Serving) × Step s t) ⊎ EndsInPanic s
serving_panics s r = goes_on s (Reach-IsServing {s = start_serving} refl r)
