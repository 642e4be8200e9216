-- ===== src/Main/Options.antt =====
-- `CmdOptions` and `parseOpt` of src/main/callx.cpp. `getopt` of the C library is a parameter: what it
-- returns, one after the other, before -1.
use callx.Prelude.{List, [], ◌∷◌, Option, none, some, Bytes}

pub data Opt : Type 0 where
  help : Opt
  config : Bytes → Opt
  unknown : Opt

pub record CmdOptions : Type 0 where
  pub config_file_str : Bytes

abbrev assigned : Option Bytes → CmdOptions → CmdOptions
assigned none o = o
assigned (some file) o = record o { config_file_str = file }

-- The loop, with `configValue`. The result is `none` where the code returns false.
abbrev parse_from : Option Bytes → List Opt → CmdOptions → Option CmdOptions
parse_from value [] o = some (assigned value o)
parse_from value (help ∷ rest) o = none
parse_from value (config file ∷ rest) o = parse_from (some file) rest o
parse_from value (unknown ∷ rest) o = none

unfoldable pub parse_opt : List Opt → CmdOptions → Option CmdOptions
parse_opt opts o = parse_from none opts o
