-- ===== src/Parsers.antt =====
-- parsers/parser.*: what every configuration file has. The constructors of the parsers take the
-- files as a parameter; a variable without a first value is `none`.
pub mod Options
pub mod Chunkserver
pub mod Masternode
pub mod User
pub mod Required
use colony_fs.Base.{String, List, [], ◌∷◌, Option, none, if◌then◌else◌}
use colony_fs.Base.Int.{ℤ}
use colony_fs.Base.Key.{string_key}
use colony_fs.Base.Map.{find}
use colony_fs.Base.Outcome.{Outcome, ok, raise, file_open_error, field_not_specified_error}
use colony_fs.Parsers.Options.{
  one_text, number, Declared, Variables, ConfigFiles, count, text_of, number_of,
}

pub record Parser : Type 0 where
  pub config : List Declared
  pub vm : Variables
  pub name : String
  pub quota : Option ℤ
  pub swarm : String
  pub dht_url : String

unfoldable pub general_options : List Declared
general_options =
    record { name = "general.name"; kind = one_text }
    ∷ record { name = "general.quota"; kind = number }
    ∷ record { name = "general.swarm"; kind = one_text }
    ∷ record { name = "general.dht"; kind = one_text }
    ∷ []

-- The constructor.
unfoldable pub parser : ConfigFiles → String → Outcome Parser
unfolding general_options
parser files config_path =
    if files.exists config_path
    then ok (record {
      config = general_options;
      vm = [];
      name = "";
      quota = none;
      swarm = "";
      dht_url = "";
    })
    else raise file_open_error

-- `parser::check`
unfoldable pub check : Parser → Outcome (Unit {0})
unfolding count
check p =
    if count "general.name" p.vm
    then if count "general.quota" p.vm
      then ok tt
      else raise (field_not_specified_error "general.quota")
    else raise (field_not_specified_error "general.name")

-- `store`, and what `notify` writes to the variables of this class.
unfoldable pub notify : Variables → Parser → Parser
unfolding find
notify vm p = record p {
  vm = vm;
  name = text_of (find "general.name" vm) p.name;
  quota = number_of (find "general.quota" vm) p.quota;
  swarm = text_of (find "general.swarm" vm) p.swarm;
  dht_url = text_of (find "general.dht" vm) p.dht_url;
}

unfoldable pub get_program_options : Parser → List Declared
get_program_options p = p.config

unfoldable pub get_name : Parser → String
get_name p = p.name

unfoldable pub get_quota : Parser → Option ℤ
get_quota p = p.quota

unfoldable pub get_dht_url : Parser → String
get_dht_url p = p.dht_url

unfoldable pub get_swarm : Parser → String
get_swarm p = p.swarm
