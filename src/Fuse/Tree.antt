-- ===== src/Fuse/Tree.antt =====
-- fuse/colonyfs_fusexx.cpp: the handlers that work on attributes. A handler returns its status, the
-- negative number of an error, with what it puts into the caller's buffers.
pub mod Directories
pub mod Unlink
pub mod Rename
pub mod Rmdir
use Prim.Native.String.{len}
use colony_fs.Base.{
  ℕ, ◌+◌, ◌==◌, String, List, [], ◌∷◌, Bool, ◌&&◌, ◌||◌, not, Option, none, some, if◌then◌else◌,
  ite, leb,
}
use colony_fs.Base.Int.{ℤ, pos, negsuc}
use colony_fs.Base.Key.{String-discrete}
use colony_fs.Base.Outcome.{
  Outcome, ok, undefined, Action, ◌>>=◌, ◌>>◌, continue, pure, fail, require, or_undefined,
}
use colony_fs.Cache.Policy.{Policy}
use colony_fs.Dht.Values.{Value}
use colony_fs.Sink.Data.{Remote, rename, erase}
use colony_fs.Fuse.Attribute.{
  Attribute, Stat, zero_stat, mode_or, s_ifdir, s_ifreg, s_iflnk, is_directory, is_link, push_back,
  remove,
}
use colony_fs.Fuse.State.{
  Env, State, in_data, get_mapped, change, entry, lookup, purge_entry, catch_lookup, validate_path,
  size_of,
}

-- -EACCES, -ENOENT, -ENODEV, -ENOTDIR, -EINVAL and -ENAMETOOLONG.
abbrev pub success : ℤ
success = pos 0

abbrev pub eacces : ℤ
eacces = negsuc 12

abbrev pub enoent : ℤ
enoent = negsuc 1

abbrev pub enodev : ℤ
enodev = negsuc 18

abbrev pub enotdir : ℤ
enotdir = negsuc 19

abbrev pub einval : ℤ
einval = negsuc 21

abbrev pub enametoolong : ℤ
enametoolong = negsuc 35

-- `list.erase(std::find(list.begin(), list.end(), name))`, where the name must be there.
abbrev pub erase_first : String → List String → Option (List String)
erase_first name [] = none
erase_first name (x ∷ xs) = ite (String-discrete x name) (some xs) (cons? x (erase_first name xs))
  where
    cons? : String → Option (List String) → Option (List String)
    cons? x none = none
    cons? x (some xs) = some (x ∷ xs)

-- `list.front()`
abbrev pub front : List String → Option String
front [] = none
front (x ∷ xs) = some x

module _ {W : Type 0} (policy : Policy String (Value Attribute) W) where
  -- A name is added to its parent's list.
  unfoldable pub register : String → String → Action (State W) (Unit {0})
  unfolding entry change
  register branch leaf = do
    parent ← entry policy branch
    change parent (λ a. record a { list = push_back a.list leaf })

  -- The constructor, with `resume` false.
  unfoldable pub start : Env → Action (State W) (Unit {0})
  unfolding entry change
  start env = do
    pair ← entry policy "/"
    change pair λ a. record a {
      stbuf = record a.stbuf {
        st_mode = mode_or s_ifdir 511;
        st_nlink = 1;
        st_mtim_sec = env.now_sec;
        st_mtim_nsec = env.now_nsec;
      };
    }

  -- `access`, `open`, `opendir`, `release` and `lock` do nothing.
  unfoldable pub allow : String → Action (State W) ℤ
  allow filepath = pure success

  unfoldable pub chmod : Env → String → ℕ → Action (State W) ℤ
  unfolding entry get_mapped change
  chmod env filename mode = do
    pair ← entry policy filename
    a ← get_mapped pair
    if (a.stbuf.st_uid == env.uid) || (env.uid == 0)
        then (do
          change pair (λ b. record b { stbuf = record b.stbuf { st_mode = mode } })
          pure success)
        else pure eacces

  unfoldable pub chown : String → ℕ → ℕ → Action (State W) ℤ
  unfolding entry change
  chown filepath uid gid = do
    pair ← entry policy filepath
    change pair (λ a. record a { stbuf = record a.stbuf { st_uid = uid; st_gid = gid } })
    pure success

  unfoldable pub utime : String → ℕ → ℕ → Action (State W) ℤ
  unfolding entry change
  utime filepath actime modtime = do
    pair ← entry policy filepath
    change pair
        λ a. record a { stbuf = record a.stbuf { st_atim_sec = actime; st_mtim_sec = modtime } }
    pure success

  -- What `mkdir` makes of the attribute; its list stays.
  abbrev pub directory : Env → ℕ → Attribute → Attribute
  directory env mode a = record a {
    stbuf = record zero_stat {
      st_mode = mode_or s_ifdir mode;
      st_nlink = 1;
      st_uid = env.uid;
      st_gid = env.gid;
      st_mtim_sec = env.now_sec;
      st_mtim_nsec = env.now_nsec;
    };
  }

  unfoldable pub mkdir : Env → String → ℕ → Action (State W) ℤ
  unfolding entry change register validate_path
  mkdir env full mode =
      if validate_path (env.filename full)
      then (do
        pair ← entry policy full
        change pair (directory env mode)
        register (env.parent_path full) (env.filename full)
        pure success)
      else pure enametoolong

  unfoldable pub symlink : Env → String → String → Action (State W) ℤ
  unfolding entry change register
  symlink env target link = do
    pair ← entry policy link
    change pair λ a. record a {
      list = push_back a.list target;
      stbuf = record a.stbuf {
        st_mode = mode_or s_iflnk 511;
        st_mtim_sec = env.now_sec;
        st_mtim_nsec = env.now_nsec;
      };
    }
    register (env.parent_path link) (env.filename link)
    pure success

  -- With the attribute that is copied to the caller. `fgetattr` does the same.
  unfoldable pub getattr : Env → String → Action (State W) (ℤ × Option Stat)
  unfolding lookup get_mapped validate_path
  getattr env full =
      if validate_path (env.filename full)
      then (catch_lookup
          (do
            pair ← lookup policy full
            a ← get_mapped pair
            require (not (a.stbuf.st_nlink == 0))
            pure (success, some a.stbuf))
          (pure (enoent, none)))
      else pure (enametoolong, none)

  -- With the names that are handed to `filler`.
  unfoldable pub readdir : String → Action (State W) (ℤ × List String)
  unfolding lookup get_mapped is_directory
  readdir filepath =
      catch_lookup
        (do
          pair ← lookup policy filepath
          a ← get_mapped pair
          if is_directory a then pure (success, "." ∷ ".." ∷ a.list) else pure (enotdir, []))
        (pure (enoent, []))

  -- With the text that is put into a buffer of `size` bytes, its terminating zero included.
  unfoldable pub readlink : String → ℕ → Action (State W) (ℤ × Option String)
  unfolding lookup get_mapped is_link
  readlink linkname size = do
    pair ← lookup policy linkname
    a ← get_mapped pair
    if is_link a
        then (do
          target ← or_undefined (front a.list)
          require (leb (len target + 1) size)
          pure (success, some target))
        else pure (einval, none)

  unfoldable pub rmdir : Env → String → Action (State W) ℤ
  unfolding purge_entry entry change
  rmdir env full = do
    purge_entry policy full
    catch_lookup
        (do
          parent ← entry policy (env.parent_path full)
          change parent (λ a. record a { list = remove (env.filename full) a.list })
          pure success)
        (pure enodev)

  module _ (remote : Remote W) (chunk_size : ℕ) where
    unfoldable pub rename_file : Env → String → String → Action (State W) ℤ
    unfolding entry get_mapped change register lookup purge_entry rename
    rename_file env oldfull newfull = do
      oldbranch ← entry policy (env.parent_path oldfull)
      a ← get_mapped oldbranch
      rest ← or_undefined (erase_first (env.filename oldfull) a.list)
      change oldbranch (λ b. record b { list = rest })
      register (env.parent_path newfull) (env.filename newfull)
      old ← lookup policy oldfull
      new ← entry policy newfull
      moved ← get_mapped old
      change new (λ b. moved)
      purge_entry policy oldfull
      kept ← get_mapped new
      in_data (rename remote chunk_size oldfull newfull (size_of kept.stbuf.st_size))
      pure success

    -- The attribute is read again for its size after it was purged.
    unfoldable pub unlink : Env → String → Action (State W) ℤ
    unfolding validate_path entry get_mapped change purge_entry erase
    unlink env full =
        if validate_path (env.filename full)
        then (do
          pair ← entry policy full
          a ← get_mapped pair
          if not (a.stbuf.st_uid == env.uid) && not (env.uid == 0) then pure eacces else (do
            parent ← entry policy (env.parent_path full)
            change parent (λ b. record b { list = remove (env.filename full) b.list })
            purge_entry policy full
            gone ← get_mapped pair
            in_data (erase remote chunk_size full (size_of gone.stbuf.st_size))
            pure success))
        else pure enametoolong
