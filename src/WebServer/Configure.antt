-- ===== src/WebServer/Configure.antt =====
-- `configureWebServer`, `configureFIPSWebServer` and `startWebServer`, and `postInit` of mq-container-master/cmd/runmqserver/post_init.go.
use docker_local.Common.{
  ℕ, Bool, true, false, ◌||◌, Option, none, some, List, [], ◌∷◌, Result, ok, err, if◌then◌else◌,
}
use docker_local.Common.Text.{Text, codes, text_eq, to_lower}
use docker_local.Disk.{Disk, OsError, fault, Outcome}
use docker_local.Copying.{copy_file}
use docker_local.Startup.Environment.{Environment, getenv}
use docker_local.Startup.SecurityUtility.{SecurityUtility}
use docker_local.Volumes.Clean.{Found, there, missing, unknown}
use docker_local.Templates.{TemplateWorld, process_template_file}
use docker_local.Keystore.Commands.{KeyWorld, Effect}
use docker_local.Tls.Web.{
  WebError, WebKeystore, has_identity, configure_web_tls, configure_web_keystore,
}
use docker_local.WebServer.Ltpa.{ltpa_keys_file_fix}
use docker_local.WebServer.Files.{Tree, Step, stat, Visit, prefix, walk}

-- What the configuration is given, but for the files: the truststore by its name, its password and whether it trusts a certificate, and
-- what `filepath.Walk` comes to.
pub record WebWorld : Type 0 where
  pub env : Environment
  pub templates : TemplateWorld
  pub utility : SecurityUtility
  pub keys : KeyWorld
  pub read_random : ℕ → List ℕ
  pub fips : Bool
  pub truststore : Text
  pub password : Text
  pub trusts : Bool
  pub visits : List Visit

pub data ConfigureError : Type 0 where
  os_error : OsError → ConfigureError
  web_error : WebError → ConfigureError

-- The files afterwards, the key commands that have been run, and the error.
pub record WebOutcome : Type 0 where
  pub tree : Tree
  pub effects : List Effect
  pub error : Option ConfigureError

abbrev pub stop : Tree → List Effect → ConfigureError → WebOutcome
stop t effects e = record { tree = t; effects = effects; error = some e }

abbrev pub settled : Tree → List Effect → WebOutcome
settled t effects = record { tree = t; effects = effects; error = none }

abbrev pub walked : List Effect → Step → WebOutcome
walked effects (t, none) = settled t effects
walked effects (t, some e) = stop t effects (os_error e)

-- The web server and its directory have to be there; if one is missing there is nothing to copy.
abbrev pub when_there : Found → WebOutcome → WebOutcome → WebOutcome → WebOutcome
when_there there done failed more = more
when_there missing done failed more = done
when_there unknown done failed more = failed

abbrev pub copy_web_files : WebWorld → List Effect → Tree → WebOutcome
copy_web_files w effects t =
    when_there (stat (codes "/opt/mqm/bin/strmqweb") t) (settled t effects)
      (stop t effects (os_error fault))
      (when_there (stat prefix t) (settled t effects) (stop t effects (os_error fault))
        (walked effects (walk w.visits t)))

abbrev pub after_tls : WebWorld → List Effect → Tree → Disk × Option WebError → WebOutcome
after_tls w effects t (d, some e) = stop (record t { disk = d }) effects (web_error e)
after_tls w effects t (d, none) = copy_web_files w effects (record t { disk = d })

abbrev pub with_keystore : WebWorld → Text → List Effect → Result WebError Text → Tree → WebOutcome
with_keystore w key_label effects (err e) t = stop t effects (web_error e)
with_keystore w key_label effects (ok webkeystore) t = after_tls w effects t (
    configure_web_tls w.templates w.utility w.read_random w.env key_label webkeystore w.password
      w.trusts t.disk)

-- The key store of the web server, if it has an identity.
abbrev pub web_keystore : WebWorld → Text → WebKeystore
web_keystore w key_label =
    if has_identity w.env key_label
    then configure_web_keystore w.keys w.env w.fips w.truststore w.password key_label
    else record { result = ok []; effects = [] }

abbrev pub after_copy : WebWorld → Text → Tree → Outcome → WebOutcome
after_copy w key_label t (d, some e) = stop (record t { disk = d }) [] (os_error e)
after_copy w key_label t (d, none) =
    with_keystore w key_label (web_keystore w key_label).effects (web_keystore w key_label).result
      (record t { disk = d })

abbrev pub server_xml : Text
server_xml = codes "/var/mqm/web/installations/Installation1/servers/mqweb/server.xml"

abbrev pub copy_server_xml : WebWorld → Text → Tree → WebOutcome
copy_server_xml w key_label t =
    after_copy w key_label t
      (copy_file (codes "/") (codes "/opt/mqm/samp/web/server.xml") server_xml t.disk)

abbrev pub after_fix : WebWorld → Text → Tree → Disk → Option OsError → WebOutcome
after_fix w key_label t d (some e) = stop (record t { disk = d }) [] (os_error e)
after_fix w key_label t d none = copy_server_xml w key_label (record t { disk = d })

-- `configureWebServer`
unfoldable pub configure_web_server : WebWorld → Text → Tree → WebOutcome
unfolding ltpa_keys_file_fix copy_file configure_web_keystore configure_web_tls walk to_lower
    text_eq
configure_web_server w key_label t =
    if text_eq (to_lower (getenv w.env (codes "AMQ_ENABLE_DT472893_REGENERATE_LTPA_KEYS")))
      (codes "true")
    then after_fix w key_label t (ltpa_keys_file_fix t.disk).disk (ltpa_keys_file_fix t.disk).error
    else copy_server_xml w key_label t

-- `configureFIPSWebServer`
unfoldable pub configure_fips_web_server : TemplateWorld → Disk → Outcome
unfolding process_template_file
configure_fips_web_server tw d =
    process_template_file tw
      (codes
        "/etc/mqm/web/installations/Installation1/servers/mqweb/configDropins/defaults/jvm.options.tpl")
      (codes "/run/jvm.options")
      ((codes "FipsProvider", codes "true")
        ∷ (codes "FipsProviderName", codes "IBMJCEPlusFIPS")
        ∷ [])
      d

-- `startWebServer`: what is logged, and whether it succeeds, where `starts` says that the command does.
pub data StartMessage : Type 0 where
  skipping starting not_started started : StartMessage

abbrev pub run_strmqweb : Bool → List StartMessage × Bool
run_strmqweb true = (starting ∷ started ∷ [], true)
run_strmqweb false = (starting ∷ not_started ∷ [], false)

unfoldable pub start_web_server : Found → Bool → List StartMessage × Bool
start_web_server missing starts = (skipping ∷ [], true)
start_web_server there starts = run_strmqweb starts
start_web_server unknown starts = run_strmqweb starts

-- `postInit`: the outcome, and what starting the web server in the background logs.
abbrev pub is_enabled : Text → Bool
is_enabled value = text_eq value (codes "true") || text_eq value (codes "1")

abbrev pub start_behind : Bool → WebOutcome → WebOutcome × List StartMessage
start_behind starts o = begun o.error
  where
    begun : Option ConfigureError → WebOutcome × List StartMessage
    begun none = (o, (start_web_server (stat (codes "/opt/mqm/bin/strmqweb") o.tree) starts).0)
    begun (some e) = (o, [])

abbrev pub configure_and_start :
    WebWorld → Text → Bool → Tree → Outcome → WebOutcome × List StartMessage
configure_and_start w key_label starts t (d, some e) =
    (stop (record t { disk = d }) [] (os_error e), [])
configure_and_start w key_label starts t (d, none) =
    start_behind starts (configure_web_server w key_label (record t { disk = d }))

unfoldable pub post_init : WebWorld → Text → Bool → Tree → WebOutcome × List StartMessage
unfolding configure_web_server configure_fips_web_server start_web_server text_eq
post_init w key_label starts t =
    if is_enabled (getenv w.env (codes "MQ_ENABLE_EMBEDDED_WEB_SERVER"))
    then configure_and_start w key_label starts t
        (if w.fips then configure_fips_web_server w.templates t.disk else (t.disk, none))
    else (settled t [], [])
