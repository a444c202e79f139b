-- ===== src/Command/Includes/Tests.antt =====
-- cmd/config.go: a configuration that includes itself, with a limit of two files.
use lets_proxy.Base.{◌≡◌, refl, str_eq, if◌then◌else◌, List, [], ◌∷◌, Str, text, ok, err, message}
use lets_proxy.Command.Includes.{Files, Reader, merge_config_by_filepath}

-- A configuration is the files that it includes; the limit is always two. The file `once` includes
-- none, any other includes itself.
abbrev files : Files
files = record {
  Conf = List Str;
  include_configs = λ c. c;
  clear_include_configs = λ c. [];
  max_config_files_read = λ c. 2;
  decode = λ c content. ok (if str_eq content (text "once") then [] else content ∷ []);
  read_file = λ path. ok path;
  glob = λ dir pattern. ok [];
  absolute = λ dir name. name;
  directory = λ path. [];
}

abbrev start : Reader files
start = record { conf = []; parsed_config_files = 0 }

cycle_test :
    merge_config_by_filepath files 4 [] start (text "a")
    ≡ err (message (text "Exceed max config files read count"))
unfolding merge_config_by_filepath lets_proxy.Command.Includes.merge_config_bytes
    lets_proxy.Command.Includes.merge_each str_eq
    lets_proxy.Command.Includes.merge_config_by_template lets_proxy.Command.Includes.has_meta
cycle_test = refl

-- The name of a file without its first letter, if some of it is left.
abbrev shorter : Str → List Str
shorter (a ∷ b ∷ s) = (b ∷ s) ∷ []
shorter _ = []

abbrev shrinking : Files
shrinking = record files { decode = λ c content. ok (shorter content) }

-- Each file includes the one of the shorter name: three files are read, with the limit of two.
three_files_test :
    merge_config_by_filepath shrinking 4 []
      (record { conf = []; parsed_config_files = 0 })
      (text "abc")
    ≡ ok (record { conf = []; parsed_config_files = 3 })
unfolding merge_config_by_filepath lets_proxy.Command.Includes.merge_config_bytes
    lets_proxy.Command.Includes.merge_each lets_proxy.Command.Includes.merge_config_by_template
    lets_proxy.Command.Includes.has_meta
three_files_test = refl
