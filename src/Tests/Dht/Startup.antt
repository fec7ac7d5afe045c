-- ===== src/Tests/Dht/Startup.antt =====
-- Configuration files, and a chunkserver that starts and finds no directory.
use colony_fs.Base.{ℕ, String, [], ◌∷◌, ◌++◌, true, ◌≡◌, refl}
use colony_fs.Base.Int.{pos}
use colony_fs.Base.Key.{string_key, String-discrete}
use colony_fs.Base.Map.{Map, find}
use colony_fs.Base.Outcome.{ok}
use colony_fs.Storage.Util.{set_prefix}
use colony_fs.Parsers
use colony_fs.Parsers.Options.{Variables, ConfigFiles, of_text, of_texts, of_number}
use colony_fs.Parsers.Chunkserver
use colony_fs.Parsers.Chunkserver.{ChunkserverParser, chunkserver_parser, get_path}
use colony_fs.Parsers.Masternode.{masternode_parser}
use colony_fs.Parsers.User.{user_parser}
use colony_fs.Parsers.Required.{
  chunkserver_parsed, masternode_parsed, user_parsed, configured, constructors_lem,
}
use colony_fs.Intercom.Chunkserver.{or_new}
use colony_fs.Tests.Storage.{new_store}
use colony_fs.Intercom.Startup.{Host, start}
use colony_fs.Intercom.Startup.Listed.{swarm_members, empty_swarm, start-listed}
use colony_fs.Tests.Disk.{disk_system}
use colony_fs.Tests.Dht.{instructions, text, server, table}
use colony_fs.Tests.Dht.Swarm.{strings, numbers, first_host, amber_world, one_host}

abbrev settings : Variables
settings =
    ("general.name", of_text "node")
    ∷ ("general.quota", of_number (pos 10))
    ∷ ("general.swarm", of_text "swarm")
    ∷ ("data.path", of_texts ("data" ∷ []))
    ∷ ("data.masternode", of_text "master")
    ∷ []

abbrev config_files : ConfigFiles
config_files = record { exists = λ p. true; store = λ options p. ok settings }

abbrev node : ChunkserverParser
node = record {
  base = configured (Parsers.general_options ++ Chunkserver.chunkserver_options) settings;
  data_path = "data" ∷ [];
  masternode = "master";
}

node_accepted : chunkserver_parser config_files "conf" ≡ ok node
unfolding chunkserver_parser find String-discrete
node_accepted = refl

abbrev host : Host (Map ℕ String) disk_system
host = record { world = amber_world; store = new_store }

can_join :
    or_new
      (swarm_members disk_system server table instructions strings numbers text "birch" 1 node
        amber_world)
      (empty_swarm disk_system server table instructions strings numbers text "birch" node)
    ≡ ok first_host
unfolding Parsers.get_swarm find String-discrete
can_join = one_host

start-listed_example :
    let (r, h') =
      start disk_system server 1 instructions strings numbers text "birch"
        (λ port. ok tt)
        config_files
        "conf"
        host in
    (r ≡ (set_prefix disk_system (disk_system.place "data") new_store).0)
    × (h'.store ≡ (set_prefix disk_system (disk_system.place "data") new_store).1)
    × (swarm_members disk_system server table instructions strings numbers text "birch" 1 node
          h'.world
        ≡ ok (record { instruction = first_host.instruction; mapped = "amber" ∷ "birch" ∷ [] }))
unfolding get_path
start-listed_example =
    start-listed disk_system server table instructions strings numbers text "birch" (λ port. ok tt)
      config_files "conf" 0 0 host node "data" [] first_host node_accepted refl refl can_join

constructors_lem_example :
    (chunkserver_parser config_files "conf" ≡ chunkserver_parsed config_files "conf")
    × (masternode_parser config_files "conf" ≡ masternode_parsed config_files "conf")
    × (user_parser config_files "conf" ≡ user_parsed config_files "conf")
constructors_lem_example = constructors_lem config_files "conf"
