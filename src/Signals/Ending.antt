-- ===== src/Signals/Ending.antt =====
-- Once a stop signal has come, the server ends.
use docker_local.Common.{
  ℕ, ◌+◌, ◌≤◌, ◌<◌, ◌≡◌, refl, Bool, true, false, ◌||◌, not, ◌⊎◌, inl, inr, arith,
}
use docker_local.Signals.System.{
  Main, startup, listening, reaped, started, waiting, finished, failed, panicked, Handler, idle,
  summarising, draining, stopping, closed, Stopper, absent, ending, ended, System, Move, Reach,
  Moves,
}
use docker_local.Signals.Safety.{IsSafe, Move-IsSafe, Reach-IsSafe}

abbrev pub main_left : Main → ℕ
main_left startup = 6
main_left listening = 5
main_left reaped = 4
main_left started = 3
main_left waiting = 2
main_left finished = 0
main_left failed = 0
main_left panicked = 0

abbrev pub handler_left : Handler → ℕ
handler_left idle = 9
handler_left summarising = 8
handler_left draining = 7
handler_left stopping = 4
handler_left closed = 0

abbrev pub stopper_left : Stopper → ℕ
stopper_left absent = 0
stopper_left ending = 2
stopper_left ended = 0

abbrev pub one_if : Bool → ℕ
one_if true = 1
one_if false = 0

-- A bound on the moves that are left while nothing happens outside.
abbrev pub moves_left : System → ℕ
moves_left s =
    main_left s.main
    + (handler_left s.handler
        + (stopper_left s.stopper + (one_if s.pending_stop + one_if s.pending_child)))

pub Move-lt : {s t : System} → Move s t → moves_left t < moves_left s
Move-lt (Move.send_start a b) = ground arith
Move-lt (Move.send_reap a b) = ground arith
Move-lt (Move.send_start_closed a b) = ground arith
Move-lt (Move.send_reap_closed a b) = ground arith
Move-lt (Move.mark a) = ground arith
Move-lt (Move.set_ready a) = ground arith
Move-lt (Move.not_ready a) = ground arith
Move-lt (Move.give_up a) = ground arith
Move-lt (Move.wake a b) = ground arith
Move-lt (Move.take_stop a b c) = ground arith
Move-lt (Move.unlisten a b) = ground arith
Move-lt (Move.stop a b c) = ground arith
Move-lt (Move.complete a b) = ground arith
Move-lt (Move.close a b c) = ground arith
Move-lt (Move.ignore a b c) = ground arith
Move-lt (Move.reap a b c) = ground arith

Moves-le : {s t : System} {n : ℕ} → Moves s n t → n + moves_left t ≤ moves_left s
Moves-le Moves.none = omega arith
Moves-le (Moves.more m d) = omega (arith, Moves-le m, Move-lt d)

-- A stop signal has come.
abbrev is_idle : Handler → Bool
is_idle idle = true
is_idle _ = false

abbrev pub is_asked : System → Bool
is_asked s = s.pending_stop || not (is_idle s.handler)

Move-is_asked : {s t : System} → Move s t → is_asked s ≡ true → is_asked t ≡ true
Move-is_asked (Move.send_start a b) h = h
Move-is_asked (Move.send_reap a b) h = h
Move-is_asked (Move.send_start_closed a b) h = h
Move-is_asked (Move.send_reap_closed a b) h = h
Move-is_asked (Move.mark a) h = h
Move-is_asked (Move.set_ready a) h = h
Move-is_asked (Move.not_ready a) h = h
Move-is_asked (Move.give_up a) h = h
Move-is_asked (Move.wake a b) h = h
Move-is_asked (Move.take_stop a b c) h = ground arith
Move-is_asked (Move.unlisten a b) h = ground arith
Move-is_asked (Move.stop a b c) h = ground arith
Move-is_asked (Move.complete a b) h = h
Move-is_asked (Move.close a b c) h = ground arith
Move-is_asked (Move.ignore a b c) h = ground arith
Move-is_asked (Move.reap a b c) h = h

-- Some move is left.
abbrev pub CanMove : System → Type 0
CanMove s = (t : System) × Move s t

-- Behind the startup, only the handler, the goroutine it starts and the main thread's wait for the channel are left.
handler_moves :
    (s : System) (h : Handler) (k : Stopper)
    → s.handler ≡ h
    → s.stopper ≡ k
    → IsSafe s
    → s.main ≡ waiting
    → is_asked s ≡ true
    → CanMove s
handler_moves s idle k e f i m a = (_, Move.take_stop (ground arith) e (ground arith))
handler_moves s summarising k e f i m a = (_, Move.unlisten (ground arith) e)
handler_moves s draining k e f i m a =
    (_, Move.stop (ground arith) e (let x = i.past_is_done in ground arith))
handler_moves s stopping absent e f i m a = absurd (let x = i.stopping_stops in ground arith)
handler_moves s stopping ending e f i m a = (_, Move.complete (ground arith) f)
handler_moves s stopping ended e f i m a = (_, Move.close (ground arith) e f)
handler_moves s closed k e f i m a = (_, Move.wake m e)

-- The main thread's sends do not block.
startup_moves : (s : System) (h : Handler) → s.handler ≡ h → IsSafe s → s.main ≡ startup → CanMove s
startup_moves s idle e i m = (_, Move.send_start m (ground arith))
startup_moves s summarising e i m = (_, Move.unlisten (ground arith) e)
startup_moves s draining e i m = (_, Move.send_start m (ground arith))
startup_moves s stopping e i m = (_, Move.send_start m (ground arith))
startup_moves s closed e i m = (_, Move.send_start_closed m e)

listening_moves :
    (s : System) (h : Handler) → s.handler ≡ h → IsSafe s → s.main ≡ listening → CanMove s
listening_moves s idle e i m = (_, Move.send_reap m (ground arith))
listening_moves s summarising e i m = (_, Move.unlisten (ground arith) e)
listening_moves s draining e i m = (_, Move.send_reap m (ground arith))
listening_moves s stopping e i m = (_, Move.send_reap m (ground arith))
listening_moves s closed e i m = (_, Move.send_reap_closed m e)

-- Has the server ended, by `doMain` that returned?
abbrev pub is_returned : Main → Bool
is_returned finished = true
is_returned failed = true
is_returned _ = false

asked_moves :
    (s : System) (m : Main)
    → s.main ≡ m
    → IsSafe s
    → is_asked s ≡ true
    → (is_returned s.main ≡ true) ⊎ CanMove s
asked_moves s startup e i a = inr (startup_moves s s.handler refl i e)
asked_moves s listening e i a = inr (listening_moves s s.handler refl i e)
asked_moves s reaped e i a = inr (_, Move.mark e)
asked_moves s started e i a = inr (_, Move.set_ready e)
asked_moves s waiting e i a = inr (handler_moves s s.handler s.stopper refl refl i e a)
asked_moves s finished e i a = inl (ground arith)
asked_moves s failed e i a = inl (ground arith)
asked_moves s panicked e i a = absurd (let x = i.never_panics in ground arith)

Moves-IsSafe : {s t : System} {n : ℕ} → Moves s n t → IsSafe s → IsSafe t
Moves-IsSafe Moves.none h = h
Moves-IsSafe (Moves.more m d) h = Move-IsSafe d (Moves-IsSafe m h)

Moves-is_asked : {s t : System} {n : ℕ} → Moves s n t → is_asked s ≡ true → is_asked t ≡ true
Moves-is_asked Moves.none h = h
Moves-is_asked (Moves.more m d) h = Move-is_asked d (Moves-is_asked m h)

-- A server that has been asked to stop never gets stuck and does not go on forever: behind any moves from
-- a state that is reached with a stop signal taken or waiting, with no event between, `doMain` has returned or a move is left, and
-- the moves are at most `moves_left`.
pub Moves-end :
    {s t : System} {n : ℕ}
    → Reach s
    → is_asked s ≡ true
    → Moves s n t
    → (n ≤ moves_left s) × ((is_returned t.main ≡ true) ⊎ CanMove t)
Moves-end {s} {t} {n} r a m = (
  omega (arith, Moves-le m),
  asked_moves t t.main refl (Moves-IsSafe m (Reach-IsSafe r)) (Moves-is_asked m a),
)
