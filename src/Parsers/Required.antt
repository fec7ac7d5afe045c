-- ===== src/Parsers/Required.antt =====
-- Which configuration files the parsers accept.
use colony_fs.Base.{String, List, [], ◌∷◌, ◌++◌, Option, none, some, ◌≡◌, arith, if◌then◌else◌}
use colony_fs.Base.Outcome.{
  Outcome, ok, raise, file_open_error, field_not_specified_error, and_then,
}
use colony_fs.Parsers.{Parser, general_options}
use colony_fs.Base.Key.{string_key}
use colony_fs.Base.Map.{find}
use colony_fs.Parsers.Options.{
  Declared, Variables, ConfigFiles, count, text_of, texts_of, number_of,
}
use colony_fs.Parsers.Chunkserver
use colony_fs.Parsers.Chunkserver.{ChunkserverParser}
use colony_fs.Parsers.Masternode
use colony_fs.Parsers.Masternode.{MasternodeParser}
use colony_fs.Parsers.User
use colony_fs.Parsers.User.{UserParser}

-- A required field, and the name by which it is reported.
abbrev pub Required : Type 0
Required = List (String × String)

-- The report on the first required field that is missing.
abbrev pub missing : Required → Variables → Option String
missing [] vm = none
missing ((name, reported) ∷ rest) vm = if count name vm then missing rest vm else some reported

-- How the reading of a file ends, by its first missing field.
abbrev pub by_missing : {A : Type 0} → Option String → A → Outcome A
by_missing none a = ok a
by_missing (some reported) a = raise (field_not_specified_error reported)

-- How a parser ends that has these options and required fields.
abbrev pub parsed :
    {A : Type 0} → ConfigFiles → List Declared → Required → (Variables → A) → String → Outcome A
parsed files options fields make path =
    if files.exists path
    then and_then (files.store options path) (λ vm. by_missing (missing fields vm) (make vm))
    else raise file_open_error

abbrev pub general_fields : Required
general_fields = ("general.name", "general.name") ∷ ("general.quota", "general.quota") ∷ []

-- The variables of every parser, as the file sets them.
abbrev pub configured : List Declared → Variables → Parser
configured options vm = record {
  config = options;
  vm = vm;
  name = text_of (find "general.name" vm) "";
  quota = number_of (find "general.quota" vm) none;
  swarm = text_of (find "general.swarm" vm) "";
  dht_url = text_of (find "general.dht" vm) "";
}

abbrev pub chunkserver_parsed : ConfigFiles → String → Outcome ChunkserverParser
chunkserver_parsed files path =
    let options = general_options ++ Chunkserver.chunkserver_options in
    parsed files options
      (general_fields ++ (("data.path", "data.path") ∷ ("data.masternode", "data.masternode") ∷ []))
      (λ vm. record {
        base = configured options vm;
        data_path = texts_of (find "data.path" vm) [];
        masternode = text_of (find "data.masternode" vm) "";
      })
      path

abbrev pub masternode_parsed : ConfigFiles → String → Outcome MasternodeParser
masternode_parsed files path =
    let options = general_options ++ Masternode.masternode_options in
    parsed files options
      (general_fields
        ++ (("metadata.path", "data.path") ∷ ("metadata.chunkserver", "data.masternode") ∷ []))
      (λ vm. record {
        base = configured options vm;
        path = texts_of (find "metadata.path" vm) [];
        chunkservers = texts_of (find "metadata.chunkserver" vm) [];
      })
      path

abbrev pub user_parsed : ConfigFiles → String → Outcome UserParser
user_parsed files path =
    let options = general_options ++ User.user_options in
    parsed files options (general_fields ++ (("user.masternode", "data.masternode") ∷ []))
      (λ vm. record {
        base = configured options vm;
        masternode = text_of (find "user.masternode" vm) "";
      })
      path

-- A file is accepted by a parser exactly if it is there, the library takes it, and every required
-- field is set: the name and the quota, and then those of the class. The object has then the values
-- that the file sets. Otherwise the constructor throws: `file_open_error` for no file, what the
-- library throws, or the report on the first field that is missing. The masternode's parser and the
-- user's report their own fields by the chunkserver's names.
pub constructors_lem :
    (files : ConfigFiles) (path : String)
    → (Chunkserver.chunkserver_parser files path ≡ chunkserver_parsed files path)
      × (Masternode.masternode_parser files path ≡ masternode_parsed files path)
      × (User.user_parser files path ≡ user_parsed files path)
unfolding Chunkserver.chunkserver_parser Masternode.masternode_parser User.user_parser
constructors_lem files path = (ground arith, ground arith, ground arith)
