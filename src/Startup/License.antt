-- ===== src/Startup/License.antt =====
-- mq-container-master/cmd/runmqserver/license.go: the license has to be accepted.
use docker_local.Common.{
  ◌≡◌, refl, ◌↔◌, Bool, true, false, ◌&&◌, not, Option, none, some, ◌++◌, Result, ok, err,
  if◌then◌else◌, arith,
}
use docker_local.Common.Text.{Text, codes, has_prefix, text_eq, text_eq_refl, text_eq_iff}
use docker_local.Startup.Environment.{Environment}

-- The cases of the `switch` on `LANG`, in its order.
unfoldable pub language_file : Text → Text
unfolding has_prefix
language_file lang =
    if has_prefix lang (codes "zh_TW")
    then codes "Chinese_TW.txt"
    else if has_prefix lang (codes "zh")
    then codes "Chinese.txt"
    else if has_prefix lang (codes "cs") && not (has_prefix lang (codes "csb"))
    then codes "Czech.txt"
    else if has_prefix lang (codes "fr")
    then codes "French.txt"
    else if has_prefix lang (codes "de")
    then codes "German.txt"
    else if has_prefix lang (codes "el")
    then codes "Greek.txt"
    else if has_prefix lang (codes "id")
    then codes "Indonesian.txt"
    else if has_prefix lang (codes "it")
    then codes "Italian.txt"
    else if has_prefix lang (codes "ja")
    then codes "Japanese.txt"
    else if has_prefix lang (codes "ko") && not (has_prefix lang (codes "kok"))
    then codes "Korean.txt"
    else if has_prefix lang (codes "lt")
    then codes "Lithuanian.txt"
    else if has_prefix lang (codes "pl")
    then codes "Polish.txt"
    else if has_prefix lang (codes "pt")
    then codes "Portugese.txt"
    else if has_prefix lang (codes "ru")
    then codes "Russian.txt"
    else if has_prefix lang (codes "sl")
    then codes "Slovenian.txt"
    else if has_prefix lang (codes "es")
    then codes "Spanish.txt"
    else if has_prefix lang (codes "tr")
    then codes "Turkish.txt"
    else codes "English.txt"

-- `resolveLicenseFile`
unfoldable pub resolve_license_file : Environment → Text
unfolding language_file
resolve_license_file env = elim (env (codes "LANG")) [
  | none ↦ codes "English.txt"
  | some lang ↦ language_file lang
]

pub data LicenseError : Type 0 where
  unreadable not_accepted : LicenseError

-- The result of `checkLicense`, and the text it logs, if it is that of a license.
pub record LicenseCheck : Type 0 where
  pub accepted : Result LicenseError Bool
  pub shown : Option Text

abbrev pub view : Option Text → LicenseCheck
view none = record { accepted = err unreadable; shown = none }
view (some buf) = record { accepted = ok false; shown = some buf }

-- `checkLicense`, when `LICENSE` has been looked up.
unfoldable pub switch : Option Text → Option Text → LicenseCheck
unfolding text_eq
switch none buf = record { accepted = err not_accepted; shown = none }
switch (some lic) buf =
    if text_eq lic (codes "accept")
    then record { accepted = ok true; shown = none }
    else if text_eq lic (codes "view")
    then view buf
    else record { accepted = err not_accepted; shown = none }

-- `checkLicense`; `read_file` is the content of the files that can be read.
unfoldable pub check_license : Environment → (Text → Option Text) → LicenseCheck
unfolding resolve_license_file switch
check_license env read_file =
    switch (env (codes "LICENSE"))
      (read_file (codes "/opt/mqm/licenses/" ++ resolve_license_file env))

switch-accepted :
    (o buf : Option Text) → (switch o buf).accepted ≡ ok true → o ≡ some (codes "accept")
unfolding switch
switch-accepted none buf e = ground arith
switch-accepted (some lic) none e = ground (arith, text_eq_iff lic (codes "accept"))
switch-accepted (some lic) (some t) e = ground (arith, text_eq_iff lic (codes "accept"))

switch-shown :
    (o buf : Option Text) {text : Text}
    → (switch o buf).shown ≡ some text
    → ((switch o buf).accepted ≡ ok false) × (buf ≡ some text)
unfolding switch
switch-shown none buf e = ground arith
switch-shown (some lic) none e = ground arith
switch-shown (some lic) (some t) e = ground arith

-- `checkLicense` accepts exactly if `LICENSE` is set to `accept`.
pub check_license_accepted :
    (env : Environment) (read_file : Text → Option Text)
    → ((check_license env read_file).accepted ≡ ok true)
      ↔ (env (codes "LICENSE") ≡ some (codes "accept"))
unfolding check_license switch
check_license_accepted env read_file = (
  switch-accepted (env (codes "LICENSE"))
      (read_file (codes "/opt/mqm/licenses/" ++ resolve_license_file env)),
  λ e. rw (e, text_eq_refl (codes "accept")) refl,
)

-- A text that `checkLicense` shows is the file for the language, and showing it does not accept.
pub check_license_shown :
    (env : Environment) (read_file : Text → Option Text) (text : Text)
    → (check_license env read_file).shown ≡ some text
    → ((check_license env read_file).accepted ≡ ok false)
      × (read_file (codes "/opt/mqm/licenses/" ++ resolve_license_file env) ≡ some text)
unfolding check_license
check_license_shown env read_file text =
    switch-shown (env (codes "LICENSE"))
      (read_file (codes "/opt/mqm/licenses/" ++ resolve_license_file env))
