-- ===== src/Lib.antt =====
-- Verification library of the queue-manager container (mq-container-master), the Go programs that
-- create, start, watch and stop an IBM MQ queue manager in a container.
--
-- The parts and their files:
--
--   Common        shared names, lists, results, and text as a list of code points with the functions of
--                 Go's package strings that the program calls.
--   Redact        mq-container-master/internal/mqscredact/mqscredact.go. Redact.Parameter reads one
--                 value (findEndOfParamterString, getParameterString), Redact.Loop is the main loop of
--                 Redact. The formatter of MQSC output (cmd/runmqserver/qmgr.go) calls it.
--   LogRotation   mq-container-master/pkg/logrotation/logrotation.go. It works on
--                 Disk, whose calls may fail as the environment says; LogRotation.Logger has the methods of
--                 RotatingLogger. The audit log of the metrics server is such a log.
--   Probes        mq-container-master/internal/probes. Probes.State has the types and texts
--                 (probestate.go), Probes.Execution finishes a probe and sends it, and Probes.Socket
--                 is the listener that keeps the state and logs (probesocket.go).
--   Disk          the file system that LogRotation and Startup.Ready work on.
--   Version       mq-container-master/internal/mqversion/mqversion.go.
--   Sensitive     mq-container-master/internal/sensitive/sensitive.go: buffers of secrets, with their memory.
--   Startup       what the container does before it creates the queue manager: the license
--                 (cmd/runmqserver/license.go), the queue manager's name (pkg/name/name.go), the FIPS mode
--                 (internal/fips/fips.go), the readiness files (internal/ready/ready.go), the
--                 removal of a tracing exit (cmd/runmqserver/opentracing.go), the
--                 configuration of Native HA (internal/ha/ha.go), and the passwords of the developer
--                 image (internal/simpleauth/simpleauth.go), which the security utility encodes
--                 (internal/securityutility/securityutility.go).
--   Server        mq-container-master/cmd/runmqserver/main.go: Server.Steps is a straight-line program,
--                 Server.Program is doMain as one, and main. The calls that it makes of the other parts
--                 are told by their names; the world says which of them fail.
--   Signals       mq-container-master/cmd/runmqserver/signals.go: the signal handler and the main thread
--                 as a step relation.
--   Logging       mq-container-master/cmd/runmqserver/logging.go: the sources, and the function that mirrors a
--                 line of a log in the format json.
--   Paths         mq-container-master/internal/pathutils/clean.go.
--   QueueManager  mq-container-master/cmd/runmqserver/qmgr.go: the directory of a queue manager
--                 (QueueManager.Directory), the arguments of MQ's commands (Settings), the functions that
--                 run them (Commands), and the texts that are changed (Stanza).
--   Following     mq-container-master/cmd/runmqserver/mirror.go: the goroutine that follows a log across
--                 rotations, as a step relation.
--   Volumes       mq-container-master/cmd/runmqserver/crtmqvol.go. The fuel of its loop is more than the words
--                 of a path, each of which one turn takes away.
--   Keystore      mq-container-master/internal/keystore/keystore.go: the key databases, with the files that are
--                 removed and the commands that are run (Commands), and the labels that they list (Listing).
--   Tls           mq-container-master/internal/tls: the key stores made from the directories of keys and
--                 certificates (tls.go) by a monad of steps that may fail (Tls.Store), and the settings of
--                 the queue manager and the web server (tls_web.go, Tls.Web).
--   Templates     mq-container-master/internal/mqtemplate/mqtemplate.go.
--   Copying       mq-container-master/internal/copy/copy.go and internal/filecheck/filecheck.go.
--   WebServer     mq-container-master/cmd/runmqserver/webserver.go and post_init.go: the file ltpa.keys
--                 (Ltpa), the files that are copied to the volume (Files), and the whole (Configure).
--   Mqini         mq-container-master/pkg/mqini/mqini.go.
--   Checks        mq-container-master/cmd/chkmqready, chkmqhealthy and chkmqstarted: the exit codes of the
--                 probes, from the readiness files (Startup.Ready), the name (Startup.Name) and dspmq.
--   Metrics       mq-container-master/internal/metrics/update.go: the metrics by their keys
--                 (initialiseMetrics). The lists of Metrics.Update are Go
--                 maps in the package mqmetric, taken in any one order.
--
-- State is passed explicitly: an operation takes the state and returns the new one. Loops that are not
-- structural take fuel: in Redact the text's length plus one is enough, since each turn reads a rune, in
-- Tls.Blocks the file's length plus one, since what is behind a block is shorter, and in Volumes more
-- than the words of a path; the theorems say that a result is returned. Goroutines are
-- step relations (Signals, Following). Go's int is modelled by the natural numbers where the
-- program never makes it negative. Text is a list of code points, so bytes that are no UTF-8 are not
-- modelled, but for what is left of a rune that a shorter text overwrites in part (Disk.overwrite). The calls of the operating system, of MQ's commands and of libraries outside this repository
-- are arguments of the definitions that use them.
--
-- Not modelled: the metrics server's goroutines and updateMetrics, the mirroring of logs in the
-- basic format (formatBasic), the summary of the probes (probeutils.go), the server of the
-- developer image (cmd/runmqdevserver), the container's runtime details, which are only logged,
-- and the loggers, which print to the console.
pub mod Common
pub mod Checks
pub mod Copying
pub mod Disk
pub mod Following
pub mod Keystore
pub mod LogRotation
pub mod Logging
pub mod Metrics
pub mod Mqini
pub mod Paths
pub mod Probes
pub mod QueueManager
pub mod Redact
pub mod Sensitive
pub mod Server
pub mod Signals
pub mod Startup
pub mod Templates
pub mod Tls
pub mod Version
pub mod Volumes
pub mod WebServer
