-- ===== src/Config/Load.antt =====
-- config.go, `Load`. The libraries viper (which reads the file and the environment), sonic and
-- pretty are a parameter.
use Prim.Native.String.{◌++◌}
use scorpion.Prelude.{String, Option, none, some, List, ◌∷◌, Result, ok, err}
use scorpion.Config.{Config}

pub record ConfigLibs : Type 1 where
  -- what viper has read
  pub File : Type 0
  pub read_in_config : String → Result File
  pub unmarshal : File → Result Config
  pub marshal_indent : Config → Result String
  pub color : String → String

-- The configuration, if there is one, and the error, if there is one: an error of the display comes
-- with the configuration.
pub record Loaded : Type 0 where
  pub config : Option Config
  pub error : Option String

module _ (libs : ConfigLibs) where
  abbrev banner : String → String
  banner shown =
      "\n================ Loaded Configuration ================\n" ++ shown
      ++ "\n======================================================\n\t"

  unfoldable displayed : Config → Result String → List String → Loaded × List String
  displayed c (err e) out = (
    record { config = some c; error = some ("error marshalling config for display: " ++ e) },
    out,
  )
  displayed c (ok indent) out =
      (record { config = some c; error = none }, banner (libs.color indent) ∷ out)

  unfoldable unmarshalled : Result Config → List String → Loaded × List String
  unfolding displayed
  unmarshalled (err e) out =
      (record { config = none; error = some ("failed to unmarshal config: " ++ e) }, out)
  unmarshalled (ok c) out = displayed c (libs.marshal_indent c) out

  unfoldable pub found : Result libs.File → List String → Loaded × List String
  unfolding unmarshalled
  found (err e) out =
      (record { config = none; error = some ("failed to read config file: " ++ e) }, out)
  found (ok file) out = unmarshalled (libs.unmarshal file) out

  -- The second component is what the standard logger has printed, the latest first.
  unfoldable pub load : String → List String → Loaded × List String
  unfolding found
  load config_path out = found (libs.read_in_config config_path) out
