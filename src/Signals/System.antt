-- ===== src/Signals/System.antt =====
-- The main thread, the signal handler and the goroutine that stops the queue manager, interleaved in any order. A send
-- on the unbuffered channel `control` is one step of both sides. Once `doMain` has returned, the process ends.
use docker_local.Common.{ℕ, ◌+◌, ◌≡◌, Bool, true, false, ◌||◌}

-- Where the main thread is: before it sends `startReaping`, before `reapNow`, before it marks the startup as complete,
-- before the readiness file, at the wait for the channel, or behind its return. `panicked` is a send on the
-- channel when it is closed.
pub data Main : Type 0 where
  startup listening reaped started waiting finished failed panicked : Main

-- Where the handler is: in its loop before a stop signal, behind that signal while `signal.Stop` has not been called, in the
-- inner loop, in its loop again, or behind its end.
pub data Handler : Type 0 where
  idle summarising draining stopping closed : Handler

-- The goroutine that calls `stopQueueManager`.
pub data Stopper : Type 0 where
  absent ending ended : Stopper

pub record System : Type 0 where
  pub main : Main
  pub handler : Handler
  pub stopper : Stopper
  pub startup_done : Bool  -- `startupCtx`
  pub notified : Bool  -- stop signals are listened to
  pub pending_stop : Bool  -- the buffer of `stopSignals`
  pub reaping : Bool  -- SIGCHLD is listened to
  pub pending_child : Bool  -- the buffer of `reapSignals`
  pub zombies : ℕ

abbrev pub init : System
init = record {
  main = startup;
  handler = idle;
  stopper = absent;
  startup_done = false;
  notified = true;
  pending_stop = false;
  reaping = false;
  pending_child = false;
  zombies = 0;
}

abbrev pub is_alive : Main → Bool
is_alive finished = false
is_alive failed = false
is_alive panicked = false
is_alive _ = true

abbrev pub is_closed : Handler → Bool
is_closed closed = true
is_closed _ = false

-- Does the handler stand at a `select` that receives from the channel?
abbrev pub is_receiving : Handler → Bool
is_receiving idle = true
is_receiving draining = true
is_receiving stopping = true
is_receiving _ = false

abbrev pub in_loop : Handler → Bool
in_loop idle = true
in_loop stopping = true
in_loop _ = false

-- A step of the program.
pub data Move (s : System) : System → Type 0 where
  send_start :
      s.main ≡ startup
      → is_receiving s.handler ≡ true
      → Move s (record s { main = listening; reaping = true })
  send_reap :
      s.main ≡ listening
      → is_receiving s.handler ≡ true
      → Move s (record s { main = reaped; zombies = 0 })
  send_start_closed : s.main ≡ startup → s.handler ≡ closed → Move s (record s { main = panicked })
  send_reap_closed : s.main ≡ listening → s.handler ≡ closed → Move s (record s { main = panicked })
  mark : s.main ≡ reaped → Move s (record s { main = started; startup_done = true })
  set_ready : s.main ≡ started → Move s (record s { main = waiting })
  not_ready : s.main ≡ started → Move s (record s { main = failed })
  give_up : s.main ≡ startup → Move s (record s { main = failed; startup_done = true })
  wake : s.main ≡ waiting → s.handler ≡ closed → Move s (record s { main = finished })
  take_stop :
      is_alive s.main ≡ true
      → s.handler ≡ idle
      → s.pending_stop ≡ true
      → Move s (record s { handler = summarising; pending_stop = false })
  unlisten :
      is_alive s.main ≡ true
      → s.handler ≡ summarising
      → Move s (record s { handler = draining; notified = false })
  stop :
      is_alive s.main ≡ true
      → s.handler ≡ draining
      → s.startup_done ≡ true
      → Move s (record s { handler = stopping; stopper = ending })
  complete : is_alive s.main ≡ true → s.stopper ≡ ending → Move s (record s { stopper = ended })
  close :
      is_alive s.main ≡ true
      → s.handler ≡ stopping
      → s.stopper ≡ ended
      → Move s (record s { handler = closed; reaping = false; zombies = 0 })
  ignore :
      is_alive s.main ≡ true
      → s.handler ≡ stopping
      → s.pending_stop ≡ true
      → Move s (record s { pending_stop = false })
  reap :
      is_alive s.main ≡ true
      → in_loop s.handler ≡ true
      → s.pending_child ≡ true
      → Move s (record s { pending_child = false; zombies = 0 })

-- What the world does: a stop signal, or the end of a process.
pub data Event (s : System) : System → Type 0 where
  stop_signal : s.notified ≡ true → Event s (record s { pending_stop = true })
  child :
      Event s (record s { pending_child = s.reaping || s.pending_child; zombies = s.zombies + 1 })

pub data Reach : System → Type 0 where
  start : Reach init
  move : {s t : System} → Reach s → Move s t → Reach t
  event : {s t : System} → Reach s → Event s t → Reach t

-- Moves, with no event between them, and their number.
pub data Moves (s : System) : ℕ → System → Type 0 where
  none : Moves s 0 s
  more : {n : ℕ} {t u : System} → Moves s n t → Move t u → Moves s (n + 1) u
