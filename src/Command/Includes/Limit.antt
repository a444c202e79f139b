-- ===== src/Command/Includes/Limit.antt =====
-- cmd/config.go: the reading of the configuration ends.
use lets_proxy.Base.{◌≡◌, ℕ, suc, ◌≤◌, Str, Result, ok}
use lets_proxy.Command.Includes.{Files, Reader}

module _ (files : Files) (most : ℕ) where
  abbrev Merge : Type 0
  Merge = Reader files → Str → Result (Reader files)

  -- At least so many files were read, and at most one more than the limit of any configuration.
  abbrev Within : ℕ → Reader files → Type 0
  Within p s =
      (p ≤ s.parsed_config_files)
      × (s.parsed_config_files ≤ suc most)
      × (files.max_config_files_read s.conf ≤ most)

  -- Two merges agree, and lead from a state within the bounds to one within them.
  abbrev Agree : ℕ → Merge → Merge → Type 0
  Agree p g h =
      (s : Reader files) (name : Str)
      → Within p s
      → (g s name ≡ h s name) × ((s' : Reader files) → g s name ≡ ok s' → Within p s')

  -- No file sets a limit above `most`.
  abbrev pub IsLimited : Type 0
  IsLimited =
      (conf conf' : files.Conf) (content : Str)
      → files.max_config_files_read conf ≤ most
      → files.decode (files.clear_include_configs conf) content ≡ ok conf'
      → files.max_config_files_read conf' ≤ most
