-- ===== src/Logging/Chosen.antt =====
-- The sources of logs that a list in `MQ_LOGGING_CONSOLE_SOURCE` chooses.
use docker_local.Common.{◌≡◌, refl, ap, ◌∙◌, Bool, true, false, List, [], ◌∷◌, ◌++◌, map, any, all}
use docker_local.Common.Text.{
  Text, text_eq, is_empty, trim_space, split, has_rune, split-word, split-separator,
}
use docker_local.Startup.Environment.{Environment}
use docker_local.Logging.Sources.{
  get_mq_log_console_source, is_permitted, is_log_console_source_valid, Source, qmgr, web, mqsc,
  probes, source_name, check_log_source_for_mirroring,
}

-- Is it the same source?
abbrev pub is_source : Source → Source → Bool
is_source qmgr qmgr = true
is_source web web = true
is_source mqsc mqsc = true
is_source probes probes = true
is_source _ _ = false

source_name-text_eq :
    (x s : Source) → text_eq (trim_space (source_name x)) (source_name s) ≡ is_source s x
unfolding text_eq trim_space
source_name-text_eq qmgr qmgr = refl
source_name-text_eq qmgr web = refl
source_name-text_eq qmgr mqsc = refl
source_name-text_eq qmgr probes = refl
source_name-text_eq web qmgr = refl
source_name-text_eq web web = refl
source_name-text_eq web mqsc = refl
source_name-text_eq web probes = refl
source_name-text_eq mqsc qmgr = refl
source_name-text_eq mqsc web = refl
source_name-text_eq mqsc mqsc = refl
source_name-text_eq mqsc probes = refl
source_name-text_eq probes qmgr = refl
source_name-text_eq probes web = refl
source_name-text_eq probes mqsc = refl
source_name-text_eq probes probes = refl

source_name-is_permitted : (x : Source) → is_permitted (trim_space (source_name x)) ≡ true
unfolding is_permitted text_eq trim_space
source_name-is_permitted qmgr = refl
source_name-is_permitted web = refl
source_name-is_permitted mqsc = refl
source_name-is_permitted probes = refl

source_name-has_rune : (x : Source) → has_rune b',' (source_name x) ≡ false
source_name-has_rune qmgr = refl
source_name-has_rune web = refl
source_name-has_rune mqsc = refl
source_name-has_rune probes = refl

-- The list as the variable has it.
abbrev pub listed : Source → List Source → Text
listed x [] = source_name x
listed x (y ∷ ys) = source_name x ++ b',' ∷ listed y ys

listed-split : (x : Source) (xs : List Source) → split (listed x xs) b',' ≡ map source_name (x ∷ xs)
listed-split x [] = split-word (source_name x) b',' (source_name-has_rune x)
listed-split x (y ∷ ys) =
    split-separator (source_name x) (listed y ys) b',' (source_name-has_rune x)
    ∙ ap (λ ws. source_name x ∷ ws) (listed-split y ys)

listed-is_empty : (x : Source) (xs : List Source) → is_empty (listed x xs) ≡ false
listed-is_empty qmgr [] = refl
listed-is_empty web [] = refl
listed-is_empty mqsc [] = refl
listed-is_empty probes [] = refl
listed-is_empty qmgr (y ∷ ys) = refl
listed-is_empty web (y ∷ ys) = refl
listed-is_empty mqsc (y ∷ ys) = refl
listed-is_empty probes (y ∷ ys) = refl

names-any :
    (s : Source) (xs : List Source)
    → any (λ arr. text_eq (trim_space arr) (source_name s)) (map source_name xs)
      ≡ any (is_source s) xs
names-any s [] = refl
names-any s (x ∷ xs) = rw (source_name-text_eq x s, names-any s xs) refl

names-all :
    (xs : List Source) → all (λ src. is_permitted (trim_space src)) (map source_name xs) ≡ true
names-all [] = refl
names-all (x ∷ xs) = rw (source_name-is_permitted x, names-all xs) refl

-- Where the variable, trimmed and in lower case, is a list of sources with commas between them, it is valid, and the sources
-- that are mirrored are those of the list.
pub check_log_source_for_mirroring-listed :
    (env : Environment) (x : Source) (xs : List Source) (s : Source)
    → get_mq_log_console_source env ≡ listed x xs
    → (is_log_console_source_valid env ≡ true)
      × (check_log_source_for_mirroring env s ≡ any (is_source s) (x ∷ xs))
unfolding is_log_console_source_valid check_log_source_for_mirroring
check_log_source_for_mirroring-listed env x xs s e = (
  rw (e, listed-is_empty x xs, listed-split x xs) (names-all (x ∷ xs)),
  rw (e, listed-is_empty x xs, listed-split x xs) (names-any s (x ∷ xs)),
)
