-- ===== src/Signals/Safety.antt =====
-- What holds in every state that is reached.
use docker_local.Common.{◌≡◌, Bool, true, false, ◌||◌, not, arith}
use docker_local.Signals.System.{
  Main, started, waiting, finished, failed, panicked, Handler, stopping, Stopper, absent, ended,
  System, is_closed, Move, Event, Reach,
}

abbrev pub is_panicked : Main → Bool
is_panicked panicked = true
is_panicked _ = false

-- Has the main thread sent all that it sends?
abbrev pub is_past : Main → Bool
is_past started = true
is_past waiting = true
is_past finished = true
is_past failed = true
is_past _ = false

abbrev pub is_absent : Stopper → Bool
is_absent absent = true
is_absent _ = false

abbrev pub is_ended : Stopper → Bool
is_ended ended = true
is_ended _ = false

abbrev pub is_stopping : Handler → Bool
is_stopping stopping = true
is_stopping _ = false

infix 20 ◌⇒◌
abbrev pub ◌⇒◌ : Bool → Bool → Bool
a ⇒ b = not a || b

-- The queue manager is stopped only behind the startup, the channel is closed only behind that, and the main thread never
-- sends on the closed channel.
pub record IsSafe (s : System) : Type 0 where
  pub never_panics : is_panicked s.main ≡ false
  pub past_is_done : (is_past s.main ⇒ s.startup_done) ≡ true
  pub startup_before : (s.startup_done ⇒ is_past s.main) ≡ true
  pub stop_behind_startup : (not (is_absent s.stopper) ⇒ s.startup_done) ≡ true
  pub close_behind_stop : (is_closed s.handler ⇒ is_ended s.stopper) ≡ true
  pub stopping_stops : (is_stopping s.handler ⇒ not (is_absent s.stopper)) ≡ true

pub Move-IsSafe : {s t : System} → Move s t → IsSafe s → IsSafe t
Move-IsSafe (Move.send_start a b) h = ground arith
Move-IsSafe (Move.send_reap a b) h = ground arith
Move-IsSafe (Move.send_start_closed a b) h = ground arith
Move-IsSafe (Move.send_reap_closed a b) h = ground arith
Move-IsSafe (Move.mark a) h = ground arith
Move-IsSafe (Move.set_ready a) h = ground arith
Move-IsSafe (Move.not_ready a) h = ground arith
Move-IsSafe (Move.give_up a) h = ground arith
Move-IsSafe (Move.wake a b) h = ground arith
Move-IsSafe (Move.take_stop a b c) h = ground arith
Move-IsSafe (Move.unlisten a b) h = ground arith
Move-IsSafe (Move.stop a b c) h = ground arith
Move-IsSafe (Move.complete a b) h = ground arith
Move-IsSafe (Move.close a b c) h = ground arith
Move-IsSafe (Move.ignore a b c) h = ground arith
Move-IsSafe (Move.reap a b c) h = ground arith

Event-IsSafe : {s t : System} → Event s t → IsSafe s → IsSafe t
Event-IsSafe (Event.stop_signal a) h = ground arith
Event-IsSafe Event.child h = ground arith

-- In every state that is reached, whatever signals come and however the threads interleave, the queue manager has been
-- asked to stop only if the startup is over, the channel is closed only if that stop has ended, and the main
-- thread has not sent on the closed channel.
pub Reach-IsSafe : {s : System} → Reach s → IsSafe s
Reach-IsSafe Reach.start = ground arith
Reach-IsSafe (Reach.move r m) = Move-IsSafe m (Reach-IsSafe r)
Reach-IsSafe (Reach.event r e) = Event-IsSafe e (Reach-IsSafe r)
