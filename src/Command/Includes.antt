-- ===== src/Command/Includes.antt =====
-- cmd/config.go: the configuration files and those that they include. The file system, the decoder of
-- toml and a decoded configuration are parameters; a fatal log is an error of the reading. The limit
-- on the files is not negative.
pub mod Limit
mod Tests
use lets_proxy.Base.{
  ℕ, zero, suc, List, [], ◌∷◌, Bool, true, false, Str, text, ◌==◌, ◌||◌, if◌then◌else◌, any, ltb,
  Error, message, Result, ok, err, ◌>>=◌,
}

-- A configuration is decoded over another one; a path is made absolute in the working directory.
pub record Files : Type 1 where
  pub Conf : Type 0
  pub include_configs : Conf → List Str
  pub clear_include_configs : Conf → Conf
  pub max_config_files_read : Conf → ℕ
  pub decode : Conf → Str → Result Conf
  pub read_file : Str → Result Str
  pub glob : Str → Str → Result (List Str)
  pub absolute : Str → Str → Str
  pub directory : Str → Str

-- `hasMeta`, on a system that is not Windows.
pub has_meta : Str → Bool
has_meta path = any (λ b. b == b'*' || b == b'?' || b == b'[' || b == 92) path

module _ (files : Files) where
  -- `_config` and `parsedConfigFiles`
  pub record Reader : Type 0 where
    pub conf : files.Conf
    pub parsed_config_files : ℕ

  -- A loop over file names or templates; it ends at the first fatal error.
  unfoldable pub merge_each : (Reader → Str → Result Reader) → Reader → List Str → Result Reader
  merge_each merge s [] = ok s
  merge_each merge s (name ∷ names) = elim (merge s name) [
    | err e ↦ err e
    | ok s' ↦ merge_each merge s' names
  ]

  -- `mergeConfigByTemplate`, by the merge of one file.
  unfoldable pub merge_config_by_template :
      (Reader → Str → Result Reader) → Str → Reader → Str → Result Reader
  merge_config_by_template merge dir s template =
      if has_meta template
      then elim (files.glob dir template) [ err e ↦ err e | ok names ↦ merge_each merge s names ]
      else merge s template

  -- `mergeConfigBytes`
  unfoldable pub merge_config_bytes :
      (Reader → Str → Result Reader) → Str → Reader → Str → Result Reader
  merge_config_bytes merge dir s content =
      elim (files.decode (files.clear_include_configs s.conf) content) [
        | err e ↦ err e
        | ok conf ↦
            merge_each (merge_config_by_template merge dir) (record s { conf = conf })
              (files.include_configs conf)
      ]

  -- `mergeConfigByFilepath`, with the depth of the inclusions that it may reach.
  unfoldable pub merge_config_by_filepath : ℕ → Str → Reader → Str → Result Reader
  merge_config_by_filepath zero dir s filename = err (message (text "stack overflow"))
  merge_config_by_filepath (suc depth) dir s filename =
      let path = files.absolute dir filename in
      let merge = merge_config_by_filepath depth (files.directory path) in
      if ltb (files.max_config_files_read s.conf) s.parsed_config_files
      then err (message (text "Exceed max config files read count"))
      else elim (files.read_file path) [
        | err e ↦ err e
        | ok content ↦
            merge_config_bytes merge (files.directory path)
              (record s { parsed_config_files = suc s.parsed_config_files }) content
      ]
