-- ===== src/App/Main.antt =====
-- src/main.py: `main` and `run`, to the exit code of the process.
use obsidian_sync.Base.{ℕ, Option, none, some, []}
use obsidian_sync.App.{
  Log, Result, ok, file_not_found, permission_denied, token_invalid, error, Parts,
}
use obsidian_sync.App.Start.{run_app}

-- How `load_config` ends: with a configuration, or with a `SystemExit`, whose code may be no integer.
pub data ConfigEnd : Type 0 where
  loaded : ConfigEnd
  system_exit : Option ℕ → ConfigEnd

-- how the process ends: with an exit code, or with an exception
pub data Exit : Type 0 where
  exit_code : ℕ → Exit
  uncaught : Exit

unfoldable pub exit_of : Result ℕ → Exit
exit_of (ok code) = exit_code code
exit_of file_not_found = uncaught
exit_of permission_denied = uncaught
exit_of token_invalid = uncaught
exit_of error = uncaught

unfoldable pub start_main : ConfigEnd → Parts → Log × Exit
unfolding run_app exit_of
start_main (system_exit none) parts = ([], exit_code 1)
start_main (system_exit (some code)) parts = ([], exit_code code)
start_main loaded parts = let (log, result) = run_app parts [] in (log, exit_of result)
