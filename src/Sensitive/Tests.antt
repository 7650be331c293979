-- ===== src/Sensitive/Tests.antt =====
-- The theorems on sensitive buffers at a block with room for one more byte.
use docker_local.Common.{ℕ, ◌+◌, ◌≡◌, ◌≢◌, refl, true, ◌&&◌, some, List, [], ◌∷◌, ◌++◌, length}
use docker_local.Sensitive.Buffer.{Sensitive, new, writes, clear_buffer, len_of}
use docker_local.Sensitive.Zeroed.{is_zeroed, is_tidy, concat, clear_writes}

abbrev secret : Sensitive
secret = new (record { bytes = 7 ∷ 8 ∷ []; spare = 1 })

abbrev double : ℕ → ℕ
double n = n + n

abbrev pieces : List (List ℕ)
pieces = (9 ∷ []) ∷ (10 ∷ 11 ∷ []) ∷ []

not_empty : secret.buf.bytes ≢ []
not_empty e = cc

clear_writes_example :
    (t : Sensitive) × (writes double pieces secret ≡ some t)
    × ((is_zeroed (clear_buffer t).buf && is_tidy (clear_buffer t)) ≡ true)
    × (len_of (clear_buffer t) ≡ length (secret.buf.bytes ++ concat pieces))
clear_writes_example = clear_writes double pieces secret not_empty refl

abbrev blank : Sensitive
blank = new (record { bytes = []; spare = 0 })
