-- ===== src/Fuse/Sound/Tree.antt =====
-- The handlers of fuse/colonyfs_fusexx.cpp for attributes leave both caches sound, however they
-- end.
use colony_fs.Base.{ℕ, String}
use colony_fs.Base.Keeps.{
  Keeps, pure-Keeps, or_undefined-Keeps, if-Keeps, require-Keeps, bind-Keeps,
}
use colony_fs.Base.Key.{string_key, chunk_key}
use colony_fs.Cache.Sound.Misses.{KeepsKey}
use colony_fs.Sink.Data.{Remote}
use colony_fs.Sink.Data.Sound.{rename-Keeps, erase-Keeps}
use colony_fs.Fuse.State.{Env, size_of}
use colony_fs.Fuse.Tree.{
  start, chmod, chown, utime, mkdir, symlink, getattr, readdir, readlink, rmdir, rename_file,
  unlink, front, erase_first, success, enametoolong,
}
use colony_fs.Fuse.Update.{Attributes, IsKeyed}
use colony_fs.Fuse.Sound.{
  Sound, in_data-Keeps, catch_lookup-Keeps, entry-Keeps, purge_entry-Keeps, get_mapped-Keeps,
  change-Keeps, register-Keeps, update-Keeps, lookup-Keeps,
}

module _ {W : Type 0} (policy : Attributes W) (remote : Remote W) (n : ℕ) where
  module _ (keyed : IsKeyed policy) where
    pub start-Keeps : (env : Env) → Keeps (Sound policy remote n) (start policy env)
    unfolding start
    start-Keeps env =
        bind-Keeps _ _ (entry-Keeps policy remote n "/")
          (λ q. change-Keeps policy remote n keyed q _)

    pub chmod-Keeps :
        (env : Env) (filename : String) (mode : ℕ)
        → Keeps (Sound policy remote n) (chmod policy env filename mode)
    unfolding chmod
    chmod-Keeps env filename mode = bind-Keeps _ _ (entry-Keeps policy remote n filename) (λ q.
        bind-Keeps _ _ (get_mapped-Keeps policy remote n q) (λ a.
          if-Keeps _ _ _
            (bind-Keeps _ _ (change-Keeps policy remote n keyed q _) (λ _. pure-Keeps _))
            (pure-Keeps _)))

    pub chown-Keeps :
        (filepath : String) (uid gid : ℕ)
        → Keeps (Sound policy remote n) (chown policy filepath uid gid)
    unfolding chown
    chown-Keeps filepath uid gid = update-Keeps policy remote n keyed filepath _ _ (pure-Keeps _)

    pub utime-Keeps :
        (filepath : String) (actime modtime : ℕ)
        → Keeps (Sound policy remote n) (utime policy filepath actime modtime)
    unfolding utime
    utime-Keeps filepath actime modtime =
        update-Keeps policy remote n keyed filepath _ _ (pure-Keeps _)

    pub mkdir-Keeps :
        (env : Env) (full : String) (mode : ℕ)
        → Keeps (Sound policy remote n) (mkdir policy env full mode)
    unfolding mkdir
    mkdir-Keeps env full mode =
        if-Keeps _ _ _
          (update-Keeps policy remote n keyed full _ _
            (bind-Keeps _ _ (register-Keeps policy remote n keyed _ _) (λ _. pure-Keeps _)))
          (pure-Keeps _)

    pub symlink-Keeps :
        (env : Env) (target link : String)
        → Keeps (Sound policy remote n) (symlink policy env target link)
    unfolding symlink
    symlink-Keeps env target link =
        update-Keeps policy remote n keyed link _ _
          (bind-Keeps _ _ (register-Keeps policy remote n keyed _ _) (λ _. pure-Keeps _))

    pub rmdir-Keeps :
        (env : Env) (full : String) → Keeps (Sound policy remote n) (rmdir policy env full)
    unfolding rmdir
    rmdir-Keeps env full = bind-Keeps _ _ (purge_entry-Keeps policy remote n full) (λ _.
        catch_lookup-Keeps policy remote n _ _
          (update-Keeps policy remote n keyed (env.parent_path full) _ _ (pure-Keeps _))
          (pure-Keeps _))

    pub unlink-Keeps :
        (chunk_size : ℕ) (env : Env) (full : String)
        → Keeps (Sound policy remote n) (unlink policy remote chunk_size env full)
    unfolding unlink
    unlink-Keeps chunk_size env full =
        if-Keeps _ _ _
          (bind-Keeps _ _ (entry-Keeps policy remote n full) (λ q.
            bind-Keeps _ _ (get_mapped-Keeps policy remote n q) (λ a.
              if-Keeps _ _ _ (pure-Keeps _) (
                update-Keeps policy remote n keyed (env.parent_path full) _ _ (
                  bind-Keeps _ _ (purge_entry-Keeps policy remote n full) (λ _.
                    bind-Keeps _ _ (get_mapped-Keeps policy remote n q) (λ gone.
                      bind-Keeps _ _
                        (in_data-Keeps policy remote n _
                          (erase-Keeps remote chunk_size full (size_of gone.stbuf.st_size)))
                        (λ _. pure-Keeps success))))))))
          (pure-Keeps enametoolong)

    module _ (keeps : KeepsKey policy) where
      pub rename_file-Keeps :
          (chunk_size : ℕ) (env : Env) (oldfull newfull : String)
          → Keeps (Sound policy remote n) (rename_file policy remote chunk_size env oldfull newfull)
      unfolding rename_file
      rename_file-Keeps chunk_size env oldfull newfull =
          bind-Keeps _ _ (entry-Keeps policy remote n _) (λ oldbranch.
            bind-Keeps _ _ (get_mapped-Keeps policy remote n oldbranch) (λ a.
              bind-Keeps _ _ (or_undefined-Keeps (erase_first (env.filename oldfull) a.list))
                (λ rest. bind-Keeps _ _ (change-Keeps policy remote n keyed oldbranch _) (λ _.
                  bind-Keeps _ _ (register-Keeps policy remote n keyed _ _) (λ _.
                    bind-Keeps _ _ (lookup-Keeps policy remote n keeps oldfull) (λ old.
                      bind-Keeps _ _ (entry-Keeps policy remote n newfull) (λ new.
                        bind-Keeps _ _ (get_mapped-Keeps policy remote n old) (λ moved.
                          bind-Keeps _ _ (change-Keeps policy remote n keyed new (λ b. moved)) (λ _.
                            bind-Keeps _ _ (purge_entry-Keeps policy remote n oldfull) (λ _.
                              bind-Keeps _ _ (get_mapped-Keeps policy remote n new) (λ kept.
                                bind-Keeps _ _
                                  (in_data-Keeps policy remote n _ (
                                    rename-Keeps remote chunk_size oldfull newfull
                                      (size_of kept.stbuf.st_size)))
                                  (λ _. pure-Keeps success))))))))))))

  module _ (keeps : KeepsKey policy) where
    pub getattr-Keeps :
        (env : Env) (full : String) → Keeps (Sound policy remote n) (getattr policy env full)
    unfolding getattr
    getattr-Keeps env full =
        if-Keeps _ _ _
          (catch_lookup-Keeps policy remote n _ _
            (bind-Keeps _ _ (lookup-Keeps policy remote n keeps full) (λ q.
              bind-Keeps _ _ (get_mapped-Keeps policy remote n q)
                (λ a. bind-Keeps _ _ (require-Keeps _) (λ _. pure-Keeps _))))
            (pure-Keeps _))
          (pure-Keeps _)

    pub readdir-Keeps :
        (filepath : String) → Keeps (Sound policy remote n) (readdir policy filepath)
    unfolding readdir
    readdir-Keeps filepath =
        catch_lookup-Keeps policy remote n _ _
          (bind-Keeps _ _ (lookup-Keeps policy remote n keeps filepath) (λ q.
            bind-Keeps _ _ (get_mapped-Keeps policy remote n q)
              (λ a. if-Keeps _ _ _ (pure-Keeps _) (pure-Keeps _))))
          (pure-Keeps _)

    pub readlink-Keeps :
        (linkname : String) (size : ℕ)
        → Keeps (Sound policy remote n) (readlink policy linkname size)
    unfolding readlink
    readlink-Keeps linkname size =
        bind-Keeps _ _ (lookup-Keeps policy remote n keeps linkname) (λ q.
          bind-Keeps _ _ (get_mapped-Keeps policy remote n q) (λ a.
            if-Keeps _ _ _
              (bind-Keeps _ _ (or_undefined-Keeps (front a.list))
                (λ target. bind-Keeps _ _ (require-Keeps _) (λ _. pure-Keeps _)))
              (pure-Keeps _)))
