-- ===== src/Fuse/Sound/Reachable.antt =====
-- The states that the file system of fuse/colonyfs_fusexx.cpp can reach from its start.
use colony_fs.Base.{ℕ, String, List, [], arith, length}
use colony_fs.Base.Int.{ℤ}
use colony_fs.Base.Key.{string_key, chunk_key}
use colony_fs.Cache.Basic.{empty}
use colony_fs.Cache.Sound.Misses.{KeepsKey}
use colony_fs.Cache.Sound.History.{empty-IsSound}
use colony_fs.Sink.Data.{Remote, chunk_policy}
use colony_fs.Fuse.State.{Env, State}
use colony_fs.Fuse.Tree.{
  start, allow, chmod, chown, utime, mkdir, symlink, getattr, readdir, readlink, rmdir, rename_file,
  unlink,
}
use colony_fs.Fuse.Io.{create, read, write, truncate, flush, run_task}
use colony_fs.Fuse.Update.{Attributes, IsKeyed}
use colony_fs.Fuse.Sound.{Sound}
use colony_fs.Fuse.Sound.Tree.{
  start-Keeps, chmod-Keeps, chown-Keeps, utime-Keeps, mkdir-Keeps, symlink-Keeps, getattr-Keeps,
  readdir-Keeps, readlink-Keeps, rmdir-Keeps, rename_file-Keeps, unlink-Keeps,
}
use colony_fs.Fuse.Sound.Io.{
  create-Keeps, read-Keeps_file, write-Keeps_file, truncate-Keeps_file, flush-Keeps, run_task-Keeps,
}

-- The members of `colonyfs_fusexx`, and the scheduler's run of a waiting flush.
pub data FuseRequest : Type 0 where
  allows : String → FuseRequest
  chmods : String → ℕ → FuseRequest
  chowns utimes : String → ℕ → ℕ → FuseRequest
  mkdirs creates : String → ℕ → FuseRequest
  symlinks renames : String → String → FuseRequest
  getattrs readdirs rmdirs unlinks flushes : String → FuseRequest
  readlinks : String → ℕ → FuseRequest
  reads writes : String → List ℕ → ℕ → ℤ → FuseRequest
  truncates : String → ℤ → FuseRequest
  runs : FuseRequest

module _ {W : Type 0} (policy : Attributes W) (remote : Remote W) (chunk_size : ℕ) where
  -- The state after a request, however it ended.
  abbrev pub handle : Env → FuseRequest → State W → State W
  handle env (allows f) s = (allow policy f s).1
  handle env (chmods f mode) s = (chmod policy env f mode s).1
  handle env (chowns f uid gid) s = (chown policy f uid gid s).1
  handle env (utimes f actime modtime) s = (utime policy f actime modtime s).1
  handle env (mkdirs f mode) s = (mkdir policy env f mode s).1
  handle env (creates f mode) s = (create policy remote chunk_size env f mode s).1
  handle env (symlinks target link) s = (symlink policy env target link s).1
  handle env (renames old new) s = (rename_file policy remote chunk_size env old new s).1
  handle env (getattrs f) s = (getattr policy env f s).1
  handle env (readdirs f) s = (readdir policy f s).1
  handle env (rmdirs f) s = (rmdir policy env f s).1
  handle env (unlinks f) s = (unlink policy remote chunk_size env f s).1
  handle env (flushes f) s = (flush f s).1
  handle env (readlinks f size) s = (readlink policy f size s).1
  handle env (reads f buffer size offset) s =
      (read policy remote chunk_size f buffer size offset s).1
  handle env (writes f buffer size offset) s =
      (write policy remote chunk_size f buffer size offset s).1
  handle env (truncates f length) s = (truncate policy remote chunk_size f length s).1
  handle env runs s = (run_task policy remote s).1

  -- The members before the constructor's body runs, with `g_flush_counter` set.
  abbrev pub unstarted : W → State W
  unstarted w = record {
    metadata = empty w;
    chunks = record { index_map = []; cache = empty w };
    world = w;
    counter = 10;
    tasks = [];
  }

  -- What the file system comes to; between two requests the network may do anything.
  pub data Reachable : State W → Type 0 where
    started : (env : Env) (w : W) → Reachable (start policy env (unstarted w)).1
    handled : (env : Env) (r : FuseRequest) (s : State W) → Reachable s → Reachable (handle env r s)
    elsewhere : (w : W) (s : State W) → Reachable s → Reachable (record s { world = w })

  module _ (keyed : IsKeyed policy) (keeps : KeepsKey policy)
      (keeps_chunk : KeepsKey (chunk_policy remote)) where
    handle-Sound :
        (env : Env) (r : FuseRequest) (s : State W)
        → Sound policy remote 10 s
        → Sound policy remote 10 (handle env r s)
    unfolding allow
    handle-Sound env (allows f) s p = p
    handle-Sound env (chmods f mode) s p = (chmod-Keeps policy remote 10 keyed env f mode).after s p
    handle-Sound env (chowns f uid gid) s p =
        (chown-Keeps policy remote 10 keyed f uid gid).after s p
    handle-Sound env (utimes f actime modtime) s p =
        (utime-Keeps policy remote 10 keyed f actime modtime).after s p
    handle-Sound env (mkdirs f mode) s p = (mkdir-Keeps policy remote 10 keyed env f mode).after s p
    handle-Sound env (creates f mode) s p =
        (create-Keeps policy remote 10 keyed chunk_size env f mode).after s p
    handle-Sound env (symlinks target link) s p =
        (symlink-Keeps policy remote 10 keyed env target link).after s p
    handle-Sound env (renames old new) s p =
        (rename_file-Keeps policy remote 10 keyed keeps chunk_size env old new).after s p
    handle-Sound env (getattrs f) s p = (getattr-Keeps policy remote 10 keeps env f).after s p
    handle-Sound env (readdirs f) s p = (readdir-Keeps policy remote 10 keeps f).after s p
    handle-Sound env (rmdirs f) s p = (rmdir-Keeps policy remote 10 keyed env f).after s p
    handle-Sound env (unlinks f) s p =
        (unlink-Keeps policy remote 10 keyed chunk_size env f).after s p
    handle-Sound env (flushes f) s p = (flush-Keeps policy remote 10 f).after s p
    handle-Sound env (readlinks f size) s p =
        (readlink-Keeps policy remote 10 keeps f size).after s p
    handle-Sound env (reads f buffer size offset) s p =
        (read-Keeps_file policy remote 10 keeps keeps_chunk chunk_size f buffer size offset).after s
          p
    handle-Sound env (writes f buffer size offset) s p =
        (write-Keeps_file policy remote 10 keyed chunk_size f buffer size offset).after s p
    handle-Sound env (truncates f length) s p =
        (truncate-Keeps_file policy remote 10 keyed keeps_chunk chunk_size f length).after s p
    handle-Sound env runs s p = (run_task-Keeps policy remote 10).after s p

    unstarted-Sound : (w : W) → Sound policy remote 10 (unstarted w)
    unstarted-Sound w = record {
      attributes = empty-IsSound policy w;
      chunks = empty-IsSound (chunk_policy remote) w;
      few = omega arith;
    }

    -- Both caches are sound in each state that is reached, and at most ten flushes wait, where the
    -- callbacks for a miss leave a value's key alone, and a key of an attribute does not depend on
    -- what is kept of the file.
    pub Reachable-Sound : (s : State W) → Reachable s → Sound policy remote 10 s
    Reachable-Sound _ (started env w) =
        (start-Keeps policy remote 10 keyed env).after _ (unstarted-Sound w)
    Reachable-Sound _ (handled env r s h) = handle-Sound env r s (Reachable-Sound s h)
    Reachable-Sound _ (elsewhere w s h) =
        let p = Reachable-Sound s h in
        record { attributes = p.attributes; chunks = p.chunks; few = p.few }
