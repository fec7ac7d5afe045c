-- ===== src/Parsers/Masternode.antt =====
-- parsers/masternode_parser.*: the fields that are missing are reported by the names of the
-- chunkserver's.
use colony_fs.Base.{String, List, [], ◌∷◌, ◌++◌, if◌then◌else◌}
use colony_fs.Base.Key.{string_key}
use colony_fs.Base.Map.{find}
use colony_fs.Base.Outcome.{Outcome, ok, raise, field_not_specified_error, and_then}
use colony_fs.Parsers
use colony_fs.Parsers.{Parser, parser, notify}
use colony_fs.Parsers.Options.{many_texts, Declared, Variables, ConfigFiles, count, texts_of}

pub record MasternodeParser : Type 0 where
  pub base : Parser
  pub open base use *
  pub path : List String
  pub chunkservers : List String

unfoldable pub masternode_options : List Declared
masternode_options =
    record { name = "metadata.path"; kind = many_texts }
    ∷ record { name = "metadata.chunkserver"; kind = many_texts }
    ∷ []

unfoldable pub check : MasternodeParser → Outcome (Unit {0})
unfolding count
check p =
    if count "metadata.path" p.base.vm
    then if count "metadata.chunkserver" p.base.vm
      then ok tt
      else raise (field_not_specified_error "data.masternode")
    else raise (field_not_specified_error "data.path")

unfoldable pub filled : Variables → Parser → MasternodeParser
unfolding find notify
filled vm base = record {
  base = notify vm base;
  path = texts_of (find "metadata.path" vm) [];
  chunkservers = texts_of (find "metadata.chunkserver" vm) [];
}

-- The constructor.
unfoldable pub masternode_parser : ConfigFiles → String → Outcome MasternodeParser
unfolding masternode_options parser filled Parsers.check check
masternode_parser files config_path = and_then (parser files config_path) λ base.
    let config = base.config ++ masternode_options in
    and_then (files.store config config_path) λ vm.
      let p = filled vm (record base { config = config }) in
      and_then (Parsers.check p.base) λ _. and_then (check p) λ _. ok p

unfoldable pub get_path : MasternodeParser → List String
get_path p = p.path

unfoldable pub get_chunkservers : MasternodeParser → List String
get_chunkservers p = p.chunkservers
