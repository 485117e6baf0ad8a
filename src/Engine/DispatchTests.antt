-- ===== src/Engine/DispatchTests.antt =====
-- The handling of remote changes at the engine of one file.
use obsidian_sync.Base.{refl, [], ◌∷◌}
use obsidian_sync.Engine.{execute}
use obsidian_sync.Engine.Queue.{Finishes}
use obsidian_sync.Engine.Perform.{perform}
use obsidian_sync.Engine.Dispatch.{handle_remote_changes, handle_remote_changes-execute}
use obsidian_sync.Engine.Tests.{phone_change, ignored, resolved_path}
use obsidian_sync.Engine.SiteTests.{second_id, last_part, site, clock, stocked}

handle_remote_changes-execute_example : Finishes (
    handle_remote_changes
      (execute second_id (perform last_part site) clock 0)
      clock
      ignored
      resolved_path
      (phone_change ∷ [])
      (record stocked { pending = [] }))
handle_remote_changes-execute_example =
    handle_remote_changes-execute second_id last_part site clock ignored resolved_path 0
      (phone_change ∷ []) (record stocked { pending = [] }) (refl, refl)
