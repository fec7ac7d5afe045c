-- ===== src/Intercom/Startup/Listed.antt =====
-- A chunkserver is in its swarm's list before it knows whether it can keep chunks.
use colony_fs.Base.{ℕ, suc, String, List, ◌∷◌, [], ◌++◌, ◌≡◌, refl, ap, ◌∙◌}
use colony_fs.Base.Outcome.{Outcome, ok, ◌>>=◌, ◌>>◌, continue, fail, bind_ok}
use colony_fs.Storage.FileSystem.{FileSystem}
use colony_fs.Storage.Util.{set_prefix}
use colony_fs.Dht.Values.{Archive, Instruction, Value, new_pointer, chunkserver_value}
use colony_fs.Dht.Harmony.{Server}
use colony_fs.Dht.Harmony.Table.{Table}
use colony_fs.Parsers
use colony_fs.Parsers.Options.{ConfigFiles}
use colony_fs.Parsers.Chunkserver.{ChunkserverParser, chunkserver_parser, get_path}
use colony_fs.Intercom.Chunkserver.{or_new, join_swarm}
use colony_fs.Intercom.Chunkserver.Swarm.{members, members-join_swarm}
use colony_fs.Intercom.Startup.{Host, in_world, in_store, first_of, chunk_server_port, init, start}

module _ {W : Type 0} (fs : FileSystem) (server : Server W) (table : Table server)
    (instructions : Archive Instruction) (strings : Archive (List String)) (numbers : Archive ℕ)
    (text : Archive String) (hostname : String) where
  -- What a client reads of the swarm that a configuration names.
  abbrev pub swarm_members : ℕ → ChunkserverParser → W → Outcome (Value (List String))
  swarm_members n p w =
      members server table instructions strings numbers text n (Parsers.get_swarm p.base) w

  abbrev pub empty_swarm : ChunkserverParser → Value (List String)
  empty_swarm p =
      new_pointer (chunkserver_value strings numbers text) instructions (Parsers.get_swarm p.base)

  start_steps :
      (bind : ℕ → Outcome (Unit {0})) (files : ConfigFiles) (config_path : String) (n : ℕ)
      (h : Host W fs) (p : ChunkserverParser) (path : String) (paths : List String) (w : W)
      → chunkserver_parser files config_path ≡ ok p
      → bind chunk_server_port ≡ ok tt
      → get_path p ≡ path ∷ paths
      → join_swarm server n instructions strings numbers text
          (Parsers.get_swarm p.base)
          hostname
          h.world
        ≡ (ok tt, w)
      → start fs server n instructions strings numbers text hostname bind files config_path h
        ≡ in_store (set_prefix fs (fs.place path)) (record { world = w; store = h.store })
  unfolding start init
  start_steps bind files config_path n h p path paths w accepted bound has_path joined =
      let h' : Host W fs = record { world = w; store = h.store } in
      let prefix_set = λ (x : String). in_store {W = W} (set_prefix fs (fs.place x)) in
      ap
        (λ (r : Outcome ChunkserverParser).
          continue r
            (λ q.
              fail (bind chunk_server_port)
              >> init fs server n instructions strings numbers text hostname q)
            h)
        accepted
      ∙ ap
          (λ (r : Outcome (Unit {0})).
            continue r (λ _. init fs server n instructions strings numbers text hostname p) h)
          bound
      ∙ bind_ok
          (in_world (
            join_swarm server n instructions strings numbers text (Parsers.get_swarm p.base)
              hostname))
          (λ _. fail (first_of (get_path p)) >>= prefix_set) h h' tt
          (ap (λ (x : Outcome (Unit {0}) × W). (x.0, record { world = x.1; store = h.store }))
            joined)
      ∙ ap (λ (ps : List String). continue (first_of ps) prefix_set h') has_path

  -- Over a hash table that is a table, a chunkserver whose file is accepted and names a directory,
  -- whose port can be bound, and whose swarm can be read or is empty yet, ends its start as
  -- `set_prefix` on the directory does, be it by an exception for a directory that is not there, and
  -- its chunks are as that leaves them. In each case the host is from then on the last member of its
  -- swarm.
  pub start-listed :
      (bind : ℕ → Outcome (Unit {0})) (files : ConfigFiles) (config_path : String) (n m : ℕ)
      (h : Host W fs) (p : ChunkserverParser) (path : String) (paths : List String)
      (v : Value (List String))
      → chunkserver_parser files config_path ≡ ok p
      → bind chunk_server_port ≡ ok tt
      → get_path p ≡ path ∷ paths
      → or_new (swarm_members (suc n) p h.world) (empty_swarm p) ≡ ok v
      → let (r, h') =
          start fs server
            (suc n)
            instructions
            strings
            numbers
            text
            hostname
            bind
            files
            config_path
            h in
        (r ≡ (set_prefix fs (fs.place path) h.store).0)
        × (h'.store ≡ (set_prefix fs (fs.place path) h.store).1)
        × (swarm_members (suc m) p h'.world
            ≡ ok (record { instruction = v.instruction; mapped = v.mapped ++ (hostname ∷ []) }))
  start-listed bind files config_path n m h p path paths v accepted bound has_path read =
      let swarm = Parsers.get_swarm p.base in
      let (done, listed) =
        members-join_swarm server table instructions strings numbers text n m swarm hostname h.world
          v read in
      let j = join_swarm server (suc n) instructions strings numbers text swarm hostname h.world in
      let steps =
        start_steps bind files config_path (suc n) h p path paths j.1 accepted bound has_path
          (ap (λ (x : Outcome (Unit {0})). (x, j.1)) done) in
      rw steps (refl, refl, listed)
