-- ===== src/Signals/Tests.antt =====
-- The theorems on the signals at a server that is asked to stop while it starts.
use docker_local.Common.{◌≤◌, ◌≡◌, refl, true, ◌⊎◌}
use docker_local.Signals.System.{System, init, Move, Event, Reach, Moves}
use docker_local.Signals.Safety.{IsSafe, Reach-IsSafe}
use docker_local.Signals.Ending.{is_returned, CanMove, moves_left, Moves-end}

abbrev asked : System
asked = record init { pending_stop = true }

asked-Reach : Reach asked
asked-Reach = Reach.event Reach.start (Event.stop_signal refl)

Reach-IsSafe_example : IsSafe asked
Reach-IsSafe_example = Reach-IsSafe asked-Reach

after : (t : System) × Moves asked 3 t
after = (
  _,
  Moves.more
      (Moves.more (Moves.more Moves.none (Move.take_stop refl refl refl)) (Move.unlisten refl refl))
      (Move.send_start refl refl),
)

Moves-end_example : (3 ≤ moves_left asked) × ((is_returned after.0.main ≡ true) ⊎ CanMove after.0)
Moves-end_example = Moves-end asked-Reach refl after.1
