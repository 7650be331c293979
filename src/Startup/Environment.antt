-- ===== src/Startup/Environment.antt =====
-- The environment variables of a process (`os.LookupEnv`, `os.Getenv` and `os.Setenv`).
use docker_local.Common.{Option, none, some, [], if◌then◌else◌}
use docker_local.Common.Text.{Text, text_eq}

abbrev pub Environment : Type 0
Environment = Text → Option Text

abbrev or_empty : Option Text → Text
or_empty none = []
or_empty (some value) = value

-- `os.Getenv`
abbrev pub getenv : Environment → Text → Text
getenv env name = or_empty (env name)

-- `os.Setenv`
unfoldable pub setenv : Text → Text → Environment → Environment
unfolding text_eq
setenv name value env other = if text_eq other name then some value else env other
