-- ===== src/Services/Supervisor/Boot/Shutdown.antt =====
-- How a requested shutdown ends.
use droid_os.Prelude.{String, ◌≡◌, none, List}
use droid_os.System.{Managed}
use droid_os.Services.Lifecycle
use droid_os.Services.Lifecycle.{Hook, returned, raised, finalized, escapes}
use droid_os.Services.Supervisor.Boot.{Supervisor}

-- The cleanup hook of the service returns.
abbrev pub CleansUp : String × Managed → Type 0
CleansUp s = escapes s.1.hooks.on_cleanup ≡ none

abbrev pub IsFinalized : String × Managed → Type 0
IsFinalized s = s.1.service.state ≡ finalized
