-- ===== src/Parsers/Chunkserver.antt =====
-- parsers/chunkserver_parser.*
use colony_fs.Base.{String, List, [], ◌∷◌, ◌++◌, if◌then◌else◌}
use colony_fs.Base.Key.{string_key}
use colony_fs.Base.Map.{find}
use colony_fs.Base.Outcome.{Outcome, ok, raise, field_not_specified_error, and_then}
use colony_fs.Parsers
use colony_fs.Parsers.{Parser, parser, notify}
use colony_fs.Parsers.Options.{
  one_text, many_texts, Declared, Variables, ConfigFiles, count, text_of, texts_of,
}

pub record ChunkserverParser : Type 0 where
  pub base : Parser
  pub open base use *
  pub data_path : List String
  pub masternode : String

unfoldable pub chunkserver_options : List Declared
chunkserver_options =
    record { name = "data.path"; kind = many_texts }
    ∷ record { name = "data.masternode"; kind = one_text }
    ∷ []

unfoldable pub check : ChunkserverParser → Outcome (Unit {0})
unfolding count
check p =
    if count "data.path" p.base.vm
    then if count "data.masternode" p.base.vm
      then ok tt
      else raise (field_not_specified_error "data.masternode")
    else raise (field_not_specified_error "data.path")

-- The variables of the object once the options are stored.
unfoldable pub filled : Variables → Parser → ChunkserverParser
unfolding find notify
filled vm base = record {
  base = notify vm base;
  data_path = texts_of (find "data.path" vm) [];
  masternode = text_of (find "data.masternode" vm) "";
}

-- The constructor.
unfoldable pub chunkserver_parser : ConfigFiles → String → Outcome ChunkserverParser
unfolding chunkserver_options parser filled Parsers.check check
chunkserver_parser files config_path = and_then (parser files config_path) λ base.
    let config = base.config ++ chunkserver_options in
    and_then (files.store config config_path) λ vm.
      let p = filled vm (record base { config = config }) in
      and_then (Parsers.check p.base) λ _. and_then (check p) λ _. ok p

-- `print`: the lines that are written.
unfoldable pub print : ChunkserverParser → List String
unfolding count
print p = if count "data.path" p.base.vm then p.data_path else []

unfoldable pub get_path : ChunkserverParser → List String
get_path p = p.data_path

unfoldable pub get_masternode : ChunkserverParser → String
get_masternode p = p.masternode
