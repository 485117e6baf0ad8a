-- ===== src/Drive/Retry/Tests.antt =====
-- A call that is limited once, and then finds its file missing.
use obsidian_sync.Base.{ℕ, zero, suc, String, some}
use obsidian_sync.Drive.Retry.{Response, http_status, execute_with_retry}
use obsidian_sync.Drive.Retry.Budget.{Ends, execute_with_retry-Ends}

abbrev limited_once : ℕ → Response String
limited_once zero = http_status (some 429)
limited_once (suc n) = http_status (some 404)

execute_with_retry-Ends_example :
    Ends String (some "drive1") limited_once (execute_with_retry (some "drive1") limited_once)
execute_with_retry-Ends_example = execute_with_retry-Ends String (some "drive1") limited_once
