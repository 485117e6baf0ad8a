-- ===== src/Vault.antt =====
-- The files of the vault, by their path from its root. The file system is a dict: what the engine, the
-- trash and the conflict copies do to it are insertions and removals.
use obsidian_sync.Base.{ℕ, String, ℤ, Dict}

pub record LocalFile : Type 0 where
  pub mtime : ℕ
  pub size : ℤ
  pub content : String

abbrev pub Vault : Type 0
Vault = Dict LocalFile
