-- ===== src/Tests/Fuse.antt =====
-- The file system with no network: attributes and chunks live in the caches alone.
pub mod Archives
pub mod Mounted
pub mod Rename
use colony_fs.Base.{
  false, none, some, ◌+◌, ◌≤◌, String, [], ◌∷◌, ◌≡◌, ◌≢◌, refl, true, arith, length, ℕ_discrete,
}
use colony_fs.Base.Int.{pos}
use colony_fs.Base.Key.{string_key, chunk_key, String-discrete}
use colony_fs.Base.Map.{find, insert, place}
use colony_fs.Base.Outcome.{undefined, ok, raise, pure, fail, lookup_e}
use colony_fs.Cache.Basic.{empty}
use colony_fs.Cache.Front.{entry_key, subscript, edit}
use colony_fs.Cache.Sound.{IsSound}
use colony_fs.Cache.Sound.Misses.{KeepsKey}
use colony_fs.Cache.Sound.History.{run, run-IsSound, subscripts, writes}
use colony_fs.Dht.Values.{Value, attribute_instruction}
use colony_fs.Sink.Data.{Remote, chunk_policy}
use colony_fs.Fuse.Attribute.{Attribute, push_back, remove, is_directory, s_ifdir}
use colony_fs.Fuse.State.{Env, State, validate_path}
use colony_fs.Cache.View.{view}
use colony_fs.Fuse.Tree.Rmdir.{rmdir-mkdir}
use colony_fs.Fuse.Tree.Unlink.{denied, unlisted, unlink_undefined}
use colony_fs.Fuse.Tree.{rmdir, unlink, mkdir, readdir, success}
use colony_fs.Fuse.Tree.Directories.{Made, mkdir_lem, readdir-mkdir}
use colony_fs.Fuse.Io.{write, read}
use colony_fs.Fuse.Io.RoundTrip.{read-write_file}
use colony_fs.Fuse.Io.Flushes.{flushes, runs, steps, steps-bound}
use colony_fs.Fuse.Update.{Attributes, IsKeyed, current, over}

abbrev attribute_at : String → Value Attribute
attribute_at path = record {
  instruction = record { kind = attribute_instruction; argument = path };
  mapped = record {
    list = [];
    stbuf = record {
      st_mode = 0;
      st_nlink = 0;
      st_uid = 0;
      st_gid = 0;
      st_size = pos 0;
      st_blksize = 0;
      st_atim_sec = 0;
      st_mtim_sec = 0;
      st_mtim_nsec = 0;
    };
  };
}

unfoldable local : Attributes (Unit {0})
local = record {
  new_pointer = attribute_at;
  get_key = λ v. v.instruction.argument;
  pre_read = λ v. fail (raise lookup_e);
  on_flush = λ v. pure tt;
  on_erase = λ v. pure tt;
  on_done = pure tt;
}

local-IsKeyed : IsKeyed local
unfolding local
local-IsKeyed v a = refl

local-KeepsKey : KeepsKey local
unfolding local
local-KeepsKey v v' w e = cc

abbrev alone : Remote (Unit {0})
alone = record {
  pre_read = λ c. fail (raise lookup_e);
  on_flush = λ c. pure tt;
  on_erase = λ c. pure tt;
  on_done = pure tt;
}

alone-KeepsKey : KeepsKey (chunk_policy alone)
unfolding chunk_policy
alone-KeepsKey v v' w e = cc

abbrev env : Env
env = record {
  uid = 1000;
  gid = 100;
  now_sec = 7;
  now_nsec = 8;
  parent_path = λ p. "/";
  filename = λ p. "music";
}

abbrev rooted : Attribute → Attribute
rooted a = record a { stbuf = record a.stbuf { st_mode = s_ifdir; st_nlink = 1 } }

rooted-key : (v : Value Attribute) → local.get_key (over rooted v) ≡ local.get_key v
unfolding local
rooted-key v = refl

-- The root is there, and is a directory.
unfoldable mounted : State (Unit {0})
unfolding subscript edit empty
mounted = record {
  metadata = run local (subscripts "/" ∷ writes 0 (over rooted) rooted-key ∷ []) (empty tt);
  chunks = record { index_map = []; cache = empty tt };
  world = tt;
  counter = 10;
  tasks = [];
}

metadata-IsSound : IsSound local mounted.metadata
unfolding mounted
metadata-IsSound =
    run-IsSound local (subscripts "/" ∷ writes 0 (over rooted) rooted-key ∷ []) tt local-KeepsKey

chunks-IsSound : IsSound (chunk_policy alone) mounted.chunks.cache
unfolding mounted
chunks-IsSound = run-IsSound (chunk_policy alone) [] tt alone-KeepsKey

short : validate_path (env.filename "/music") ≡ true
unfolding validate_path
short = refl

apart : entry_key local "/music" ≢ entry_key local (env.parent_path "/music")
unfolding local
apart e = cc

mkdir_lem_example :
    ((mkdir local env "/music" 493 mounted).0 ≡ ok success)
    × Made local env "/music" 493 mounted (mkdir local env "/music" 493 mounted).1
mkdir_lem_example =
    mkdir_lem local env "/music" 493 mounted local-IsKeyed metadata-IsSound short apart

root_there : is_directory (current local "/" mounted).mapped ≡ true
unfolding is_directory mounted local String-discrete find insert place ℕ_discrete
root_there = refl

new_file_empty : (current local "/song" mounted).mapped.stbuf.st_size ≡ pos 0
unfolding mounted local String-discrete find insert place ℕ_discrete
new_file_empty = refl

read-write_file_example :
    let (r, s') = write local alone 10 "/song" (7 ∷ 8 ∷ 9 ∷ []) 3 (pos 14) mounted in
    (r ≡ ok (pos 3))
    × ((read local alone 10 "/song" (5 ∷ 5 ∷ 5 ∷ 5 ∷ []) 3 (pos 14) s').0
        ≡ ok (pos 3, 7 ∷ 8 ∷ 9 ∷ 5 ∷ []))
read-write_file_example =
    read-write_file local alone 10 14 3 0 "/song" (7 ∷ 8 ∷ 9 ∷ []) (5 ∷ 5 ∷ 5 ∷ 5 ∷ []) mounted
      (omega arith) (omega arith) (omega arith) (omega arith) (omega arith) (omega arith)
      local-IsKeyed metadata-IsSound chunks-IsSound new_file_empty (omega arith)

abbrev root : Env
root = record env { uid = 0 }

may_remove : denied local root (current local "/music" mounted).mapped ≡ false
unfolding mounted local String-discrete find insert place ℕ_discrete
may_remove = refl

erased : (local.on_erase (local.new_pointer "/music") mounted.world).0 ≡ ok tt
unfolding local
erased = refl

unlink_undefined_example :
    let (r, s') = unlink local alone 10 root "/music" mounted in
    (r ≡ undefined)
    × (view s'.metadata (entry_key local "/music") ≡ none)
    × (view s'.metadata (entry_key local "/")
        ≡ some (over (unlisted local "music") (current local "/" mounted)))
unlink_undefined_example =
    unlink_undefined local alone 10 root "/music" mounted local-IsKeyed metadata-IsSound short apart
      may_remove erased

music_new : view mounted.metadata (entry_key local "/music") ≡ none
unfolding mounted local String-discrete find insert place ℕ_discrete
music_new = refl

root_seen : view mounted.metadata (entry_key local "/") ≡ some (current local "/" mounted)
unfolding mounted local String-discrete find insert place ℕ_discrete
root_seen = refl

music_unlisted :
    remove "music" (current local "/" mounted).mapped.list ≡ (current local "/" mounted).mapped.list
unfolding mounted local String-discrete find insert place ℕ_discrete
music_unlisted = refl

erases : (w : Unit {0}) → (local.on_erase (local.new_pointer "/music") w).0 ≡ ok tt
unfolding local
erases w = refl

rmdir-mkdir_example :
    let (r, s') = rmdir local env "/music" (mkdir local env "/music" 493 mounted).1 in
    (r ≡ ok success)
    × ((j : String) → view s'.metadata j ≡ view mounted.metadata j)
    × (s'.chunks ≡ mounted.chunks)
rmdir-mkdir_example =
    rmdir-mkdir local env "/music" 493 (current local "/" mounted) mounted local-IsKeyed
      metadata-IsSound short apart music_new root_seen music_unlisted erases
