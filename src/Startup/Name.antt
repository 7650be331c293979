-- ===== src/Startup/Name.antt =====
-- mq-container-master/pkg/name/name.go: the queue manager's name.
use docker_local.Common.{
  ◌≡◌, refl, Bool, true, false, ◌||◌, ◌&&◌, ◌⊎◌, ℕ, Option, none, some, [], ◌∷◌, all, Result, ok,
  err, leb, ◌==◌, if◌then◌else◌, Bool-cases, inl, inr, ap,
}
use docker_local.Common.Text.{Text, codes, is_empty}
use docker_local.Startup.Environment.{Environment, getenv}

-- The class of runes that the regular expression leaves out.
abbrev pub is_name_rune : ℕ → Bool
is_name_rune c =
    (leb b'a' c && leb c b'z')
    || (leb b'A' c && leb c b'Z')
    || (leb b'0' c && leb c b'9')
    || (c == b'.')
    || (c == b'_')
    || (c == b'%')
    || (c == b'/')

unfoldable pub sanitize_queue_manager_name : Text → Text
sanitize_queue_manager_name [] = []
sanitize_queue_manager_name (c ∷ name) =
    let rest = sanitize_queue_manager_name name in if is_name_rune c then c ∷ rest else rest

pub data NameError : Type 0 where
  no_hostname : NameError

abbrev pub from_hostname : Option Text → Result NameError Text
from_hostname none = err no_hostname
from_hostname (some name) = ok (sanitize_queue_manager_name name)

-- `GetQueueManagerName`; `getenv` is empty where the variable is not set. `hostname` is `none` if `os.Hostname` fails.
unfoldable pub get_queue_manager_name : Environment → Option Text → Result NameError Text
unfolding sanitize_queue_manager_name
get_queue_manager_name env hostname =
    if is_empty (getenv env (codes "MQ_QMGR_NAME"))
    then from_hostname hostname
    else ok (getenv env (codes "MQ_QMGR_NAME"))

sanitize-all : (name : Text) → all is_name_rune (sanitize_queue_manager_name name) ≡ true
unfolding sanitize_queue_manager_name
sanitize-all [] = refl
sanitize-all (c ∷ name) = elim (Bool-cases (is_name_rune c)) [
  | inl e ↦ rw (e, e) (sanitize-all name)
  | inr e ↦ rw e (sanitize-all name)
]

sanitize-same :
    (name : Text) → all is_name_rune name ≡ true → sanitize_queue_manager_name name ≡ name
unfolding sanitize_queue_manager_name
sanitize-same [] h = refl
sanitize-same (c ∷ name) h = elim (Bool-cases (is_name_rune c)) [
  | inl e ↦ rw e (ap (λ rest. c ∷ rest) (sanitize-same name (rw e at h)))
  | inr e ↦ let h' = rw e at h in cc
]

-- Where `MQ_QMGR_NAME` is not set or empty, the name is made from the host's: it has only runes that the regular
-- expression allows, and it is the host's name if that has no others.
pub get_queue_manager_name-hostname :
    (env : Environment) (hostname : Text)
    → is_empty (getenv env (codes "MQ_QMGR_NAME")) ≡ true
    → (name : Text) × (get_queue_manager_name env (some hostname) ≡ ok name)
      × (all is_name_rune name ≡ true)
      × ((all is_name_rune hostname ≡ false) ⊎ (name ≡ hostname))
unfolding get_queue_manager_name
get_queue_manager_name-hostname env hostname h = (
  sanitize_queue_manager_name hostname,
  rw h refl,
  sanitize-all hostname,
  elim (Bool-cases (all is_name_rune hostname)) [
    | inl e ↦ inr (sanitize-same hostname e)
    | inr e ↦ inl e
  ],
)
