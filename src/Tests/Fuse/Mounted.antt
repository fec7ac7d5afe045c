-- ===== src/Tests/Fuse/Mounted.antt =====
-- The mounted file system over a hash table and a chunkserver that always has the same bytes.
use colony_fs.Base.{ℕ, String, List, [], ◌∷◌}
use colony_fs.Base.Int.{pos}
use colony_fs.Base.Map.{Map}
use colony_fs.Base.Outcome.{pure}
use colony_fs.Dht.Policies.{Peers}
use colony_fs.Sink.Data.{Remote}
use colony_fs.Fuse.Update.{Attributes}
use colony_fs.Fuse.State.{State}
use colony_fs.Fuse.Tree.{start}
use colony_fs.Fuse.Sound.{Sound}
use colony_fs.Fuse.Sound.Reachable.{
  FuseRequest, Reachable, handle, unstarted, mkdirs, creates, writes, reads, renames, unlinks,
  flushes, runs,
}
use colony_fs.Fuse.Sound.Mounted.{remote_attributes, remote_chunks}
use colony_fs.Tests.Dht.{server, instructions, text}
use colony_fs.Tests.Disk.{decimal}
use colony_fs.Tests.Fuse.{env}
use colony_fs.Tests.Fuse.Archives.{attributes}

abbrev World : Type 0
World = Map ℕ String

abbrev peers : Peers World
peers = record {
  random_index = λ servers. pure 0;
  retrieve_chunk = λ host c. pure (record c { bytes = 7 ∷ 8 ∷ [] });
  deposit_chunk = λ host c. pure tt;
}

abbrev policy : Attributes World
policy = remote_attributes server 2 instructions attributes

abbrev remote : Remote World
remote = remote_chunks server 2 instructions attributes text decimal peers ("carol" ∷ [])

abbrev handle_all : List FuseRequest → State World → State World
handle_all [] s = s
handle_all (r ∷ rs) s = handle_all rs (handle policy remote 10 env r s)

abbrev requests : List FuseRequest
requests =
    mkdirs "/music" 493
    ∷ creates "/song" 420
    ∷ writes "/song" (7 ∷ 8 ∷ 9 ∷ []) 3 (pos 14)
    ∷ flushes "/song"
    ∷ runs
    ∷ reads "/song" (5 ∷ 5 ∷ 5 ∷ []) 3 (pos 0)
    ∷ renames "/song" "/tune"
    ∷ unlinks "/tune"
    ∷ []

abbrev fresh : State World
fresh = (start policy env (unstarted policy remote 10 [])).1
