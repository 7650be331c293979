-- ===== src/Logging/Tests.antt =====
-- The theorems on mirroring at a line of a queue manager's log and at a list of two sources.
use docker_local.Common.{◌≡◌, refl, true, false, none, some, if◌then◌else◌}
use docker_local.Common.Text.{Text, codes, text_eq}
use docker_local.Startup.Environment.{Environment}
use docker_local.Logging.Sources.{get_mq_log_console_source}
use docker_local.Logging.Mirror.{MirrorWorld, is_counted, mirror_message}

abbrev two_sources : Environment
unfolding text_eq
two_sources name =
    if text_eq name (codes "MQ_LOGGING_CONSOLE_SOURCE")
    then some (codes " QMGR,mqsc")
    else if text_eq name (codes "MQ_MULTI_INSTANCE")
    then some (codes "true")
    else none

abbrev one_host : MirrorWorld
one_host = record {
  env = two_sources;
  hostname = some (codes "host1");
  process_log_message = λ msg. some (some (codes "host2"));
}

abbrev other_host_line : Text
other_host_line = codes "{}"

is_filtered : is_counted (mirror_message one_host other_host_line true) ≡ some false
unfolding mirror_message two_sources
is_filtered = refl

two_sources-listed : get_mq_log_console_source two_sources ≡ codes "qmgr,mqsc"
unfolding get_mq_log_console_source two_sources
two_sources-listed = refl
