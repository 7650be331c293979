-- ===== src/Following/InOrder.antt =====
-- Every line is passed on once, in order, if no two rotations come before the new file is open.
use docker_local.Common.{◌≤◌, ◌≡◌, ◌++◌, length, arith}
use docker_local.Following.System.{ended, Follower, unread, Reach}
use docker_local.Following.Faithful.{is_current, behind, start-IsFaithful, IsFaithful}
use docker_local.Following.Turns.{Turn-IsFaithful}
use docker_local.Following.Happenings.{Happening-IsFaithful}

pub Reach-IsFaithful : {s : Follower} → Reach is_current s → IsFaithful s
Reach-IsFaithful (Reach.begin from_start there) = start-IsFaithful from_start there
Reach-IsFaithful (Reach.turn r d) = Turn-IsFaithful d (Reach-IsFaithful r)
Reach-IsFaithful (Reach.happen r h a) = Happening-IsFaithful h a (Reach-IsFaithful r)

-- Where the log is rotated only while the follower has the file at the path open, the lines passed to the mirror function, those that are
-- to be read from the open file and those of the file behind it are together the lines written, in order: none is lost,
-- none is passed twice, whatever the order of writes, rotations and reads.
pub Reach-in_order :
    {s : Follower} → Reach is_current s → s.passed ++ (unread s ++ behind s) ≡ s.written
Reach-in_order r = (Reach-IsFaithful r).in_order

-- Under the same condition, a follower that ends because it was cancelled has passed on at least as many lines as had been
-- written when it was cancelled.
pub Reach-ended : {s : Follower} → Reach is_current s → s.place ≡ ended → s.owed ≤ length s.passed
Reach-ended {s} r e =
    let i = Reach-IsFaithful r in let x = i.ends in let y = i.paid_ready in ground arith
