-- ===== src/Engine/SiteTests.antt =====
-- The theorems on the engine's methods at a vault of one file.
use obsidian_sync.Base.{
  truthy_text, ℕ, pos, String, false, ◌≡◌, refl, none, some, [], ◌∷◌, arith, contains, keys, insert,
  lookup, ◌+◌, ◌++◌, map, Dict, length,
}
use obsidian_sync.Vector.{empty}
use obsidian_sync.Vault.{LocalFile}
use obsidian_sync.Trash.{no_fault}
use obsidian_sync.Conflict.{Naming, candidate, conflict_name}
use obsidian_sync.Reconcile.{same_md5}
use obsidian_sync.Reconcile.Actions.{SyncAction, upload_file, version_greater}
use obsidian_sync.Reconcile.Incremental.{has_id}
use obsidian_sync.Intent.{Log, recorded_line, get_unresolved, recorded_in, resolved_in}
use obsidian_sync.Engine.{Engine, run_action}
use obsidian_sync.Engine.Convert.{state_md5}
use obsidian_sync.Engine.Run.{intents_after, IsNew, logged}
use obsidian_sync.Engine.Site.{Site, answer, fetched}
use obsidian_sync.Engine.Upload.{is_upload_echo, do_upload, upload_target, send}
use obsidian_sync.Engine.Download.{do_download}
use obsidian_sync.Engine.Deletion.{do_delete_local}
use obsidian_sync.Engine.Perform.{perform}
use obsidian_sync.Engine.Untouched.{run_action-perform}
use obsidian_sync.Engine.Edits.{Survives, do_download-Survives}
use obsidian_sync.Engine.Published.{Published, do_upload-Published}
use obsidian_sync.Engine.Undelete.{CanUndo, IsMarkedDeleted, do_delete_local-CanUndo}
use obsidian_sync.Engine.Replay.{replay_intents}
use obsidian_sync.Engine.Replay.Turn.{kept_lines, unfinished, endings}
use obsidian_sync.Engine.Replay.Renewed.{replay_intents-Renews}
use obsidian_sync.Engine.Tests.{engine}

abbrev pub second_id : Log SyncAction → String
second_id log = "b2"

abbrev pub clock : Engine → ℕ
clock e = 20

abbrev pub last_part : String → String
last_part path = path

abbrev note : LocalFile
note = record { mtime = 7; size = pos 3; content = "abc" }

abbrev naming : Naming
naming = record {
  parts = λ path. record { parent = "."; stem = "a"; suffix = ".md" };
  stamp = λ n. "20260401-100000";
  micro_stamp = "20260401-100000-000001";
  device_prefix = "laptop00";
}

-- the hash of a text is the text itself
abbrev pub site : Site
site = record {
  find_file_by_rel_path = λ calls path. none;
  upload = λ calls f path id props. answer (record { id = "d1"; md5_checksum = some "abc" });
  get_md5 = λ calls id. some "new";
  download = λ calls id.
      fetched (record { mtime = 9; size = pos 3; content = "new" })
        (record { md5_checksum = some "new"; app_properties = none });
  move_to_tombstones = λ calls id props. none;
  hard_delete = λ calls id. none;
  rename = λ calls id name. none;
  compute_md5 = λ f. some f.content;
  naming = λ e. naming;
  copy_fails = λ path. false;
  trash_fault = some (λ path. no_fault);
  new_trash_id = λ trash. "t1";
  unlink_fails = λ path. false;
  monotonic = λ e. 20;
  wall = λ e. 100;
  clock_ms = λ e. pos 5;
  echo_window = 30;
}

abbrev pub stocked : Engine
stocked = record engine { vault = ("a.md", note) ∷ [] }

second_id-IsNew : IsNew (second_id engine.log) engine.log
unfolding contains keys recorded_in resolved_in insert
second_id-IsNew = (refl, refl)

run_action-perform_example :
    get_unresolved
      (run_action second_id
        (perform last_part site)
        clock
        (upload_file "a.md" version_greater)
        stocked).0.log
    ≡ intents_after
        (perform last_part site
          (upload_file "a.md" version_greater)
          (logged second_id (upload_file "a.md" version_greater) stocked)).1
        "b2"
        (upload_file "a.md" version_greater)
        (get_unresolved engine.log)
run_action-perform_example =
    run_action-perform second_id last_part site clock (upload_file "a.md" version_greater) stocked
      second_id-IsNew

do_download-Survives_example :
    Survives "a.md" note stocked.vault (do_download site (some "d1") "a.md" stocked).0.vault
unfolding lookup has_id same_md5 state_md5 contains keys candidate conflict_name truthy_text
do_download-Survives_example =
    do_download-Survives site (some "d1") "a.md" note stocked 0 refl refl refl refl refl
      (omega arith)

do_upload-Published_example : Published "a.md" note (some "abc") (do_upload site "a.md" stocked).0
unfolding lookup is_upload_echo do_upload upload_target send empty
do_upload-Published_example = do_upload-Published site "a.md" note stocked refl refl tt refl

do_delete_local-CanUndo_example :
    CanUndo "t1" "a.md" stocked (do_delete_local site "a.md" stocked).0
    × IsMarkedDeleted "a.md" (do_delete_local site "a.md" stocked).0
unfolding lookup
do_delete_local-CanUndo_example =
    do_delete_local-CanUndo site "a.md" note (λ path. no_fault) refl refl stocked refl refl refl

abbrev pub interrupted : Engine
interrupted = record stocked {
  log = some (recorded_line "a1" (upload_file "a.md" version_greater) ∷ []);
}

replay_intents-Renews_example :
    let d = get_unresolved interrupted.log in
    let es =
      endings second_id
        (perform last_part site)
        clock
        d
        (record { log = interrupted.log; world = interrupted }) in
    let after = replay_intents second_id (perform last_part site) clock interrupted in
    (renewed : Dict SyncAction) × (get_unresolved after.0.log ≡ kept_lines d es ++ renewed)
    × (map (λ e. e.1) renewed ≡ unfinished d es)
    × (after.1 + length (kept_lines d es) ≡ length d)
unfolding get_unresolved contains keys recorded_in resolved_in insert
replay_intents-Renews_example =
    replay_intents-Renews second_id last_part site clock interrupted ((refl, refl), tt)
