-- ===== src/Sensitive/Buffer.antt =====
-- `Sensitive`, with the memory that its buffers take. A buffer is a block of memory, which it owns alone. That finalizers
-- zero a block that nothing refers to any more is up to Go, and left out.
use docker_local.Common.{
  ℕ, ◌-◌, Bool, true, false, Option, none, some, List, [], ◌∷◌, ◌++◌, length, leb, if◌then◌else◌,
  map,
}

-- A byte slice that starts its block: the bytes, and how many more fit in the block.
pub record Block : Type 0 where
  pub bytes : List ℕ
  pub spare : ℕ

-- An object, and the blocks that it has left.
pub record Sensitive : Type 0 where
  pub buf : Block
  pub left : List Block

-- `New`
abbrev pub new : Block → Sensitive
new buf = record { buf = buf; left = [] }

abbrev pub zeros : List ℕ → List ℕ
zeros = map (λ b. 0)

-- `zeroMeta`
unfoldable pub zero_meta : Block → Block
zero_meta m = record m { bytes = zeros m.bytes }

-- Go's `append`: in place where the bytes fit, else in a new block (`true`); how much spare memory that
-- has is up to Go.
unfoldable pub append_bytes : (ℕ → ℕ) → Block → List ℕ → Bool × Block
append_bytes spare_of m b =
    if leb (length b) m.spare
    then (false, record { bytes = m.bytes ++ b; spare = m.spare - length b })
    else (true, record { bytes = m.bytes ++ b; spare = spare_of (length (m.bytes ++ b)) })

abbrev pub adopt : Sensitive → Bool × Block → Sensitive
adopt s (true, new_buf) = record { buf = new_buf; left = zero_meta s.buf ∷ s.left }
adopt s (false, new_buf) = record { buf = new_buf; left = s.left }

-- `Write`; `none` is the panic of `&newBuf[0]` or `&s.buf[0]`, where the buffer has no byte.
abbrev pub write_to : Sensitive → List ℕ → Bool × Block → Option Sensitive
write_to s [] grown = none
write_to s (c ∷ cs) grown = some (adopt s grown)

unfoldable pub write : (ℕ → ℕ) → Sensitive → List ℕ → Option Sensitive
unfolding append_bytes zero_meta
write spare_of s b = write_to s s.buf.bytes (append_bytes spare_of s.buf b)

-- `Append`
unfoldable pub append : (ℕ → ℕ) → Sensitive → Sensitive → Option Sensitive
unfolding write
append spare_of s other = write spare_of s other.buf.bytes

-- `Clear`
unfoldable pub clear_buffer : Sensitive → Sensitive
unfolding zero_meta
clear_buffer s = record { buf = zero_meta s.buf; left = s.left }

-- `Len`
abbrev pub len_of : Sensitive → ℕ
len_of s = length s.buf.bytes

-- Calls of `Write`, one after the other, up to a panic.
abbrev pub then_writes : (Sensitive → Option Sensitive) → Option Sensitive → Option Sensitive
then_writes rest none = none
then_writes rest (some s) = rest s

unfoldable pub writes : (ℕ → ℕ) → List (List ℕ) → Sensitive → Option Sensitive
unfolding write
writes spare_of [] s = some s
writes spare_of (b ∷ bs) s = then_writes (writes spare_of bs) (write spare_of s b)
