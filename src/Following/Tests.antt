-- ===== src/Following/Tests.antt =====
-- A log of two files that is followed until it is cancelled, and the race that doubles a line.
use docker_local.Common.{◌≤◌, ◌≡◌, refl, true, [], ◌∷◌, ◌++◌, length}
use docker_local.Common.Text.{Text, codes}
use docker_local.Following.System.{Follower, unread, Turn, Happening, Reach}
use docker_local.Following.Faithful.{is_current, behind}
use docker_local.Following.InOrder.{Reach-in_order, Reach-ended}

abbrev old_line : Text
old_line = codes "{old}"

abbrev new_line : Text
new_line = codes "{new}"

-- One line, a rotation, another line, and then the follower is cancelled.
abbrev rotated : (s : Follower) × Reach is_current s
rotated = (
  _,
  Reach.happen
      (Reach.happen
        (Reach.happen (Reach.happen (Reach.begin true []) (Happening.write old_line) refl)
          Happening.rotate refl)
        (Happening.write new_line) refl)
      (Happening.cancel refl) refl,
)

Reach-in_order_example :
    rotated.0.passed ++ (unread rotated.0 ++ behind rotated.0) ≡ rotated.0.written
Reach-in_order_example = Reach-in_order rotated.1

-- The loop once, with the rotation, and once more.
abbrev followed : (s : Follower) × Reach is_current s
followed = (
  _,
  Reach.turn
      (Reach.turn
        (Reach.turn
          (Reach.turn
            (Reach.turn
              (Reach.turn
                (Reach.turn
                  (Reach.turn (Reach.turn rotated.1 (Turn.mirror_now refl))
                    (Turn.other_file refl refl))
                  (Turn.mirror_rest refl))
                (Turn.open_new refl))
              (Turn.mirror_new refl))
            (Turn.once_more refl refl refl))
          (Turn.mirror_now refl))
        (Turn.same_file refl refl))
      (Turn.finish refl refl refl),
)

Reach-ended_example : followed.0.owed ≤ length followed.0.passed
Reach-ended_example = Reach-ended followed.1 refl

-- Two rotations before the new file is opened.
abbrev raced : (s : Follower) × Reach (λ s. true) s
raced = (
  _,
  Reach.turn
      (Reach.turn
        (Reach.happen
          (Reach.happen
            (Reach.turn
              (Reach.turn
                (Reach.happen (Reach.turn (Reach.begin true []) (Turn.mirror_now refl))
                  Happening.rotate refl)
                (Turn.other_file refl refl))
              (Turn.mirror_rest refl))
            Happening.rotate refl)
          (Happening.write new_line) refl)
        (Turn.open_new refl))
      (Turn.mirror_new refl),
)

abbrev raced_again : (s : Follower) × Reach (λ s. true) s
raced_again = (
  _,
  Reach.turn
      (Reach.turn
        (Reach.turn
          (Reach.turn (Reach.turn (Reach.turn raced.1 (Turn.rest refl refl)) (Turn.mirror_now refl))
            (Turn.other_file refl refl))
          (Turn.mirror_rest refl))
        (Turn.open_new refl))
      (Turn.mirror_new refl),
)

doubled :
    (raced_again.0.passed ≡ new_line ∷ new_line ∷ []) × (raced_again.0.written ≡ new_line ∷ [])
doubled = (refl, refl)
