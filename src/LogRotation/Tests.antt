-- ===== src/LogRotation/Tests.antt =====
-- A log of two files of at most 8 bytes, and the theorems at it.
use docker_local.Common.{ℕ, ◌≡◌, refl, none, some, [], ◌∷◌, true, false, ◌⊎◌, inl, arith}
use docker_local.Common.Text.{codes}
use docker_local.Disk.{Disk}
use docker_local.LogRotation.Logger.{RotatingLogger, perform_log_rotation, append}
use docker_local.LogRotation.Rotation.{Rotated, perform_log_rotation-Rotated}
use docker_local.LogRotation.Appending.{history, Grown, IsBounded, append-history, append-IsBounded}

abbrev audit : RotatingLogger
audit = record { instance_file_name = λ i. b'l' ∷ i ∷ []; max_file_bytes = 8; log_files_count = 2 }

abbrev blank : Disk
blank = record { content = λ q. none; fails = λ op q. false }

abbrev used : Disk
used = append audit (codes " second\n") false (append audit (codes "one") false blank)

audit-names : (i j : ℕ) → audit.instance_file_name i ≡ audit.instance_file_name j → i ≡ j
audit-names i j e = cc

used-files :
    (used.content (b'l' ∷ 1 ∷ []) ≡ some (codes "second\n"))
    × (used.content (b'l' ∷ 2 ∷ []) ≡ some (codes "one\n"))
unfolding append
used-files = (refl, refl)

dropped_duplicate :
    (append audit (codes "second") true used).content (b'l' ∷ 1 ∷ []) ≡ some (codes "second\n")
unfolding append
dropped_duplicate = refl

perform_log_rotation-Rotated_example :
    (d' : Disk) × (perform_log_rotation audit blank ≡ (d', none)) × Rotated audit blank d'
perform_log_rotation-Rotated_example =
    perform_log_rotation-Rotated audit audit-names blank (λ op path. refl) (omega arith)

append-history_example :
    ((history audit 2 (append audit (codes "one") true blank) ≡ history audit 2 blank)
      × (◌≡◌ true true))
    ⊎ Grown audit 2 (codes "one\n") blank (append audit (codes "one") true blank)
unfolding append
append-history_example =
    append-history audit audit-names (codes "one") true blank (λ op path. refl) (omega arith)

-- A message that is too long for a file stands in one alone.
append-IsBounded_example :
    IsBounded audit (codes "one hundred" ∷ []) (append audit (codes "one hundred") true blank)
append-IsBounded_example =
    append-IsBounded audit audit-names (codes "one hundred") [] true blank (λ op path. refl)
      (omega arith) (record { at = λ i h l. inl (omega arith) })
