-- ===== src/Intercom/Startup.antt =====
-- api/chunkserver_api.* and the constructor of intercom/chunkserver_harmony.cpp: how a chunkserver
-- starts. It joins its swarm before it looks at the directory for its chunks.
pub mod Listed
use colony_fs.Base.{ℕ, String, List, [], ◌∷◌}
use colony_fs.Base.Outcome.{
  Outcome, ok, raise, blocked, undefined, Action, ◌>>=◌, ◌>>◌, continue, fail,
}
use colony_fs.Storage.FileSystem.{FileSystem}
use colony_fs.Storage.Util.{Store, set_prefix}
use colony_fs.Dht.Values.{Archive, Instruction}
use colony_fs.Dht.Harmony.{Server}
use colony_fs.Parsers
use colony_fs.Parsers.Options.{ConfigFiles}
use colony_fs.Parsers.Chunkserver.{ChunkserverParser, chunkserver_parser, get_path}
use colony_fs.Intercom.Chunkserver.{join_swarm}

-- The hash table that a chunkserver asks, and its own chunks.
pub record Host (W : Type 0) (fs : FileSystem) : Type 0 where
  pub world : W
  pub store : Store fs

module _ {W : Type 0} {fs : FileSystem} where
  abbrev pub in_world : {A : Type 0} → Action W A → Action (Host W fs) A
  in_world m h = let (r, w) = m h.world in (r, record { world = w; store = h.store })

  abbrev pub in_store : {A : Type 0} → Action (Store fs) A → Action (Host W fs) A
  in_store m h = let (r, s) = m h.store in (r, record { world = h.world; store = s })

abbrev pub chunk_server_port : ℕ
chunk_server_port = 1212

-- `get_path()[0]`
abbrev pub first_of : List String → Outcome String
first_of [] = undefined
first_of (x ∷ xs) = ok x

-- The URL that the client of the hash table is given is not used: it calls one server
-- (xmlrpc/harmony.cpp).
module _ {W : Type 0} (fs : FileSystem) (server : Server W) (fuel : ℕ)
    (instructions : Archive Instruction) (strings : Archive (List String)) (numbers : Archive ℕ)
    (text : Archive String) (hostname : String) where
  -- `chunkserver_harmony::init`
  unfoldable pub init : ChunkserverParser → Action (Host W fs) (Unit {0})
  unfolding join_swarm set_prefix get_path Parsers.get_swarm
  init p = do
    in_world (
        join_swarm server fuel instructions strings numbers text (Parsers.get_swarm p.base)
          hostname)
    path ← fail (first_of (get_path p))
    in_store (set_prefix fs (fs.place path))

  -- The constructor of `chunkserver_api`, and that of `chunkserver_harmony`, whose base class binds
  -- the acceptor to a port before anything else: `bind` is how that ends.
  unfoldable pub start :
      (ℕ → Outcome (Unit {0})) → ConfigFiles → String → Action (Host W fs) (Unit {0})
  unfolding chunkserver_parser init
  start bind files config_path = do
    p ← fail (chunkserver_parser files config_path)
    fail (bind chunk_server_port)
    init p
