-- ===== src/Apps/Steps.antt =====
-- The active generation, by the state file.
use rugix.Common.{ℕ, Option, none}
use rugix.Apps.{StateFile, absent, corrupt, holds}
use rugix.Apps.Manager.{active_in}

-- The generation that is active according to the file.
abbrev pub active_file : StateFile → Option ℕ
active_file absent = none
active_file corrupt = none
active_file (holds s) = active_in s
