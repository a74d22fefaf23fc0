-- ===== src/Deps/Kingpin.antt =====
-- gopkg.in/alecthomas/kingpin.v2: an application with its flags, as the values of the calls that
-- build it, and the parser of the command line.
use provider_stackrox.Base.{String, ℤ, Bool, false, Option, List, [], ◌∷◌, ◌++◌}

-- Envar and OverrideDefaultFromEnvar of a flag, or neither
pub data Envar : Type 0 where
  no_envar : Envar
  envar : String → Envar
  override_default_from_envar : String → Envar

-- Bool(), Duration(), Int() and String() of a flag
pub data FlagType : Type 0 where
  bool_flag : FlagType
  duration_flag : FlagType
  int_flag : FlagType
  string_flag : FlagType

pub record Flag : Type 0 where
  pub name : String
  pub help : String
  pub short : Option String
  pub default : Option String
  pub variable : Envar
  pub parsed_as : FlagType

pub record Application : Type 0 where
  pub name : String
  pub help : String
  -- DefaultEnvars was called.
  pub default_envars : Bool
  pub flags : List Flag

-- kingpin.New
abbrev pub new_application : (name help : String) → Application
new_application name help = record { name = name; help = help; default_envars = false; flags = [] }

-- app.Flag(…) up to the call that fixes the type
abbrev pub add_flag : Application → Flag → Application
add_flag app f = record app { flags = app.flags ++ (f ∷ []) }

-- Parse returns, and the pointers of the flags hold their values; or it returns an error; or it ends
-- the process, which a flag like --help asks for.
pub data Parsed (Values Error : Type 0) : Type 0 where
  values : Values → Parsed Values Error
  parse_error : Error → Parsed Values Error
  terminated : Parsed Values Error

pub record KingpinLib (World Error : Type 0) : Type 1 where
  -- filepath.Base
  pub base : String → String
  pub Values : Type 0
  pub parse : Application → List String → World → Parsed Values Error × World
  -- what is behind the pointer that a flag of this name has returned; a Duration is in nanoseconds
  pub bool_value : Values → String → Bool
  pub duration_value : Values → String → ℤ
  pub int_value : Values → String → ℤ
  pub string_value : Values → String → String
