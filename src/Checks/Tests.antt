-- ===== src/Checks/Tests.antt =====
-- A replica, and an instance with Native HA that is not in sync.
use docker_local.Common.{ℕ, ◌≡◌, refl, Bool, true, false, none, some, [], ok, if◌then◌else◌, arith}
use docker_local.Common.Text.{Text, codes, text_eq}
use docker_local.Common.Decimal.{decimal}
use docker_local.Disk.{Disk}
use docker_local.Startup.Environment.{Environment}
use docker_local.Startup.Name.{get_queue_manager_name}
use docker_local.Startup.Ready.{set_ready_to_sync}
use docker_local.Startup.Ready.Since.{Reliable}
use docker_local.Checks.Programs.{CheckWorld, is_started, chkmqready, chkmqhealthy, chkmqstarted}
use docker_local.Checks.Codes.{chkmqstarted-chkmqhealthy, chkmqstarted-expired}

abbrev environment : Bool → Environment
environment ha name =
    if text_eq name (codes "MQ_QMGR_NAME")
    then some (codes "qm1")
    else if ha
    then (if text_eq name (codes "MQ_NATIVE_HA") then some (codes "true") else none)
    else none

abbrev out : Text
out = codes "QMNAME(qm1) ROLE(Active) STATUS (RUNNING) INSYNC(NO)"

abbrev world : Bool → ℕ → Text → CheckWorld
world ha now status = record {
  env = environment ha;
  hostname = none;
  now = now;
  dspmq = some status;
  dspmq_nativeha = some status;
  port_open = true;
}

abbrev disk : Disk
disk = record { content = λ path. none; fails = λ operation path. false }

abbrev ready_disk : Disk
ready_disk = record { content = λ path. some []; fails = λ operation path. false }

reliable : Reliable disk
reliable = record { never = λ op path. refl }

a_replica : chkmqready (world false 0 (codes "QMNAME(qm1) STATUS (REPLICA)")) ready_disk ≡ 10
unfolding chkmqready text_eq
a_replica = refl

counts : is_started out ≡ true
unfolding is_started
counts = refl

named : get_queue_manager_name (environment true) none ≡ ok (codes "qm1")
unfolding get_queue_manager_name text_eq
named = refl

chkmqstarted-chkmqhealthy_example :
    chkmqstarted (world false 20 out) disk ≡ (disk, chkmqhealthy (world false 20 out))
unfolding text_eq
chkmqstarted-chkmqhealthy_example = chkmqstarted-chkmqhealthy (world false 20 out) disk refl

chkmqstarted-expired_example :
    (chkmqstarted (world true 25 out) (set_ready_to_sync 20 disk).0).1 ≡ 0
unfolding text_eq
chkmqstarted-expired_example =
    chkmqstarted-expired (world true 25 out) 20 disk (codes "qm1") out reliable refl (omega arith)
      (omega arith) refl refl named refl counts

too_early : (chkmqstarted (world true 24 out) (set_ready_to_sync 20 disk).0).1 ≡ 1
unfolding chkmqstarted decimal
too_early = refl
