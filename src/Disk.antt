-- ===== src/Disk.antt =====
-- The files that the program works on, and the calls of the package `os` on them. Which call on which
-- path fails is up to the environment. A failed call changes nothing.
use docker_local.Common.{
  ℕ, zero, suc, ◌+◌, ◌-◌, ◌/◌, ◌%◌, ◌≡◌, refl, Bool, false, Option, none, some, List, [], ◌∷◌, ◌++◌,
  map, length, drop, ltb, leb, if◌then◌else◌,
}
use docker_local.Common.Text.{Text, text_eq, text_eq_refl}

abbrev pub FilePath : Type 0
FilePath = Text

pub data Operation : Type 0 where
  open_file close_file stat_file read_file write_file remove_file rename_file : Operation

pub record Disk : Type 0 where
  pub content : FilePath → Option Text
  pub fails : Operation → FilePath → Bool

-- `os.IsNotExist` tells the first error from the others.
pub data OsError : Type 0 where
  not_exist fault : OsError

-- What a call leaves on the disk, and its error.
abbrev pub Outcome : Type 0
Outcome = Disk × Option OsError

unfoldable pub put : FilePath → Option Text → Disk → Disk
put path file d = record d { content = λ q. if text_eq path q then file else d.content q }

abbrev pub or_empty : Option Text → Text
or_empty none = []
or_empty (some t) = t

abbrev refuse_if : Bool → Disk → Disk → Outcome
refuse_if refused old new = if refused then (old, some fault) else (new, none)

-- `os.OpenFile` with `os.O_CREATE`.
unfoldable pub create : FilePath → Disk → Outcome
unfolding put
create path d = refuse_if (d.fails open_file path) d (put path (some (or_empty (d.content path))) d)

-- `os.Remove`.
abbrev pub remove_existing : Option Text → FilePath → Disk → Outcome
remove_existing none path d = (d, some not_exist)
remove_existing (some t) path d = (put path none d, none)

unfoldable pub remove : FilePath → Disk → Outcome
unfolding put
remove path d =
    if d.fails remove_file path then (d, some fault) else remove_existing (d.content path) path d

-- `os.Rename`.
abbrev pub rename_existing : Option Text → FilePath → FilePath → Disk → Outcome
rename_existing none old new d = (d, some not_exist)
rename_existing (some t) old new d = (put new (some t) (put old none d), none)

unfoldable pub rename : FilePath → FilePath → Disk → Outcome
unfolding put
rename old new d =
    if d.fails rename_file old then (d, some fault) else rename_existing (d.content old) old new d

-- `os.WriteFile`.
unfoldable pub write : FilePath → Text → Disk → Outcome
unfolding put
write path t d = refuse_if (d.fails write_file path) d (put path (some t) d)

-- `WriteString` on a file that is open for appending.
unfoldable pub append_to : FilePath → Text → Disk → Outcome
unfolding put
append_to path t d =
    refuse_if (d.fails write_file path) d (put path (some (or_empty (d.content path) ++ t)) d)

-- The bytes of a rune. What is no rune stands for a byte, of a rune that has been cut in two: it is that byte and `cut` more.
abbrev pub cut : ℕ
cut = 1114112

unfoldable pub utf8 : ℕ → List ℕ
utf8 c =
    if ltb c 128
    then c ∷ []
    else if ltb c 2048
    then (192 + c / 64) ∷ (128 + c % 64) ∷ []
    else if ltb c 65536
    then (224 + c / 4096) ∷ (128 + c / 64 % 64) ∷ (128 + c % 64) ∷ []
    else if ltb c cut
    then (240 + c / 262144) ∷ (128 + c / 4096 % 64) ∷ (128 + c / 64 % 64) ∷ (128 + c % 64) ∷ []
    else (c - cut) ∷ []

unfoldable pub byte_count : Text → ℕ
unfolding utf8
byte_count [] = 0
byte_count (c ∷ s) = length (utf8 c) + byte_count s

-- A text less so many bytes at its beginning.
unfoldable pub drop_bytes : ℕ → Text → Text
unfolding utf8
drop_bytes zero s = s
drop_bytes (suc n) [] = []
drop_bytes (suc n) (c ∷ s) =
    let rest = drop_bytes (suc n - length (utf8 c)) s in
    if leb (length (utf8 c)) (suc n) then rest else map (λ b. b + cut) (drop (suc n) (utf8 c)) ++ s

-- The first bytes of a file are written. A file opened without `os.O_TRUNC` keeps the bytes behind them.
unfoldable pub overwrite : Text → Text → Text
unfolding byte_count drop_bytes
overwrite out old = out ++ drop_bytes (byte_count out) old

pub overwrite-nil : (old : Text) → overwrite [] old ≡ old
unfolding overwrite byte_count drop_bytes
overwrite-nil old = refl

unfoldable pub write_over : FilePath → Text → Disk → Disk
unfolding put overwrite
write_over path out d = put path (some (overwrite out (or_empty (d.content path)))) d

-- The file that is put has the contents, and no other file has others.
pub put-content : (path : FilePath) (t : Option Text) (d : Disk) → (put path t d).content path ≡ t
unfolding put
put-content path t d = rw (text_eq_refl path) refl

pub put-other :
    (path other : FilePath) (t : Option Text) (d : Disk)
    → text_eq path other ≡ false
    → (put path t d).content other ≡ d.content other
unfolding put
put-other path other t d e = rw e refl
