-- ===== src/Parsers/User.antt =====
-- parsers/user_parser.*: the missing field is reported by the name of the chunkserver's.
use colony_fs.Base.{String, List, [], ◌∷◌, ◌++◌, if◌then◌else◌}
use colony_fs.Base.Key.{string_key}
use colony_fs.Base.Map.{find}
use colony_fs.Base.Outcome.{Outcome, ok, raise, field_not_specified_error, and_then}
use colony_fs.Parsers
use colony_fs.Parsers.{Parser, parser, notify}
use colony_fs.Parsers.Options.{one_text, Declared, Variables, ConfigFiles, count, text_of}

pub record UserParser : Type 0 where
  pub base : Parser
  pub open base use *
  pub masternode : String

unfoldable pub user_options : List Declared
user_options = record { name = "user.masternode"; kind = one_text } ∷ []

unfoldable pub check : UserParser → Outcome (Unit {0})
unfolding count
check p =
    if count "user.masternode" p.base.vm
    then ok tt
    else raise (field_not_specified_error "data.masternode")

unfoldable pub filled : Variables → Parser → UserParser
unfolding find notify
filled vm base = record {
  base = notify vm base;
  masternode = text_of (find "user.masternode" vm) "";
}

-- The constructor.
unfoldable pub user_parser : ConfigFiles → String → Outcome UserParser
unfolding user_options parser filled Parsers.check check
user_parser files config_path = and_then (parser files config_path) λ base.
    let config = base.config ++ user_options in
    and_then (files.store config config_path) λ vm.
      let p = filled vm (record base { config = config }) in
      and_then (Parsers.check p.base) λ _. and_then (check p) λ _. ok p

unfoldable pub get_masternode : UserParser → String
get_masternode p = p.masternode
