-- ===== src/Fuse/Sound/Io.antt =====
-- The handlers of fuse/colonyfs_fusexx.cpp for the bytes of files, and the flushes, leave both
-- caches sound, however they end.
use colony_fs.Base.{
  ℕ, Bool, true, false, ◌==◌, ◌-◌, ◌+◌, ◌≤◌, ◌≡◌, refl, arith, length, String, List, [], ◌∷◌,
  if◌then◌else◌,
}
use colony_fs.Base.Int.{ℤ, pos, negsuc}
use colony_fs.Base.Keeps.{Keeps, pure-Keeps, if-Keeps, bind-Keeps, Leads, bind-Leads}
use colony_fs.Base.Key.{string_key, chunk_key}
use colony_fs.Base.Outcome.{Outcome, ok, blocked}
use colony_fs.Cache.Sound.Misses.{KeepsKey}
use colony_fs.Sink.Data.{Remote, chunk_policy}
use colony_fs.Sink.Data.Sound.{
  write-Keeps, read-Keeps, truncate-Keeps, purge_file-Keeps, invalidate_file-Keeps,
}
use colony_fs.Fuse.State.{Env, State, size_of}
use colony_fs.Fuse.Update.{Attributes, IsKeyed}
use colony_fs.Fuse.Tree.{success}
use colony_fs.Fuse.Attribute.{push_back}
use colony_fs.Fuse.Io.Flushes.{length-push_back}
use colony_fs.Fuse.Io.{create, read, write, truncate, flush, execute, run_task}
use colony_fs.Fuse.Sound.{
  Sound, in_data-Keeps, into_buffer-Keeps, catch_lookup-Keeps, entry-Keeps, invalidate_entry-Keeps,
  get_mapped-Keeps, change-Keeps, register-Keeps, update-Keeps, lookup-Keeps,
}

module _ {W : Type 0} (policy : Attributes W) (remote : Remote W) (n : ℕ) where
  module _ (keyed : IsKeyed policy) where
    pub create-Keeps :
        (chunk_size : ℕ) (env : Env) (full : String) (mode : ℕ)
        → Keeps (Sound policy remote n) (create policy remote chunk_size env full mode)
    unfolding create
    create-Keeps chunk_size env full mode =
        if-Keeps _ _ _
          (update-Keeps policy remote n keyed full _ _ (
            bind-Keeps _ _ (register-Keeps policy remote n keyed _ _) (λ _.
              bind-Keeps _ _
                (in_data-Keeps policy remote n _ (write-Keeps remote chunk_size full [] 0 0))
                (λ _. pure-Keeps _))))
          (pure-Keeps _)

    pub write-Keeps_file :
        (chunk_size : ℕ) (full : String) (buffer : List ℕ) (size : ℕ) (offset : ℤ)
        → Keeps (Sound policy remote n) (write policy remote chunk_size full buffer size offset)
    unfolding write
    write-Keeps_file chunk_size full buffer size offset =
        bind-Keeps _ _
          (in_data-Keeps policy remote n _
            (write-Keeps remote chunk_size full buffer size (size_of offset)))
          (λ _. update-Keeps policy remote n keyed full _ _ (pure-Keeps _))

  pub flush-Keeps : (filepath : String) → Keeps (Sound policy remote n) (flush filepath)
  unfolding flush
  flush-Keeps filepath = record { after = λ s p. ended s p (s.counter == 0) refl }
    where
      ended :
          (s : State W)
          → Sound policy remote n s
          → (b : Bool) → (s.counter == 0) ≡ b
          → Sound policy remote n
              (if◌then◌else◌ {A = Outcome ℤ × State W} b
                (blocked, s)
                (
                  ok success,
                  record s { counter = s.counter - 1; tasks = push_back s.tasks filepath },
                )).1
      ended s p true e = p
      ended s p false e = record {
        attributes = p.attributes;
        chunks = p.chunks;
        few = ground (arith, p.few, length-push_back s.tasks filepath);
      }

  more : (s : State W) → Sound policy remote n s → Sound policy remote (n + 1) s
  more s p = record { attributes = p.attributes; chunks = p.chunks; few = omega (arith, p.few) }

  execute-Leads :
      (filename : String)
      → Leads (Sound policy remote n) (Sound policy remote (n + 1)) (execute policy remote filename)
  unfolding execute
  execute-Leads filename =
      bind-Leads _ _ (invalidate_entry-Keeps policy remote n filename) more (λ _.
        bind-Leads _ _ (in_data-Keeps policy remote n _ (invalidate_file-Keeps remote filename))
          more
          (λ _.
            bind-Leads _ _ (in_data-Keeps policy remote n _ (purge_file-Keeps remote filename)) more
              (λ _. record {
                leads = λ s p. record {
                  attributes = p.attributes;
                  chunks = p.chunks;
                  few = omega (arith, p.few);
                };
              })))

  module _ (keeps : KeepsKey policy) where
    pub read-Keeps_file :
        KeepsKey (chunk_policy remote)
        → (chunk_size : ℕ) (full : String) (buffer : List ℕ) (size : ℕ) (offset : ℤ)
        → Keeps (Sound policy remote n) (read policy remote chunk_size full buffer size offset)
    unfolding read
    read-Keeps_file keeps_chunk chunk_size full buffer size offset =
        bind-Keeps _ _ (lookup-Keeps policy remote n keeps full) (λ q.
          bind-Keeps _ _ (get_mapped-Keeps policy remote n q) (λ a. if-Keeps _ _ _ (pure-Keeps _) (
            bind-Keeps _ _
              (into_buffer-Keeps policy remote n buffer _
                (read-Keeps remote keeps_chunk chunk_size full _ _))
              (λ b. pure-Keeps _))))

  pub truncate-Keeps_file :
      IsKeyed policy
      → KeepsKey (chunk_policy remote)
      → (chunk_size : ℕ) (full : String) (length : ℤ)
      → Keeps (Sound policy remote n) (truncate policy remote chunk_size full length)
  unfolding truncate
  truncate-Keeps_file keyed keeps chunk_size full (negsuc m) = pure-Keeps _
  truncate-Keeps_file keyed keeps chunk_size full (pos m) =
      catch_lookup-Keeps policy remote n _ _
        (bind-Keeps _ _ (entry-Keeps policy remote n full) (λ q.
          bind-Keeps _ _ (get_mapped-Keeps policy remote n q) (λ a.
            bind-Keeps _ _
              (in_data-Keeps policy remote n _
                (truncate-Keeps remote keeps chunk_size full m (size_of a.stbuf.st_size)))
              (λ _. bind-Keeps _ _ (change-Keeps policy remote n keyed q _) (λ _. pure-Keeps _)))))
        (pure-Keeps _)

-- The task that runs makes room for the flush that its end allows again.
module _ {W : Type 0} (policy : Attributes W) (remote : Remote W) where
  pub run_task-Keeps : (n : ℕ) → Keeps (Sound policy remote n) (run_task policy remote)
  unfolding run_task
  run_task-Keeps n = record { after = λ s p. ran s.tasks s refl p }
    where
      ran :
          (fs : List String) (s : State W)
          → s.tasks ≡ fs
          → Sound policy remote n s
          → Sound policy remote n
              (elim fs as (λ _. Outcome (Unit {0}) × State W) [
                | [] ↦ (ok tt, s)
                | f ∷ fs ↦ execute policy remote f (record s { tasks = fs })
              ]).1
      ran [] s e p = p
      ran (f ∷ fs) s e p =
          let few : s.counter + length (f ∷ fs) ≤ n = rw e at p.few in
          let p' =
            (execute-Leads policy remote (n - 1) f).leads (record s { tasks = fs })
              (record { attributes = p.attributes; chunks = p.chunks; few = omega (arith, few) }) in
          record {
            attributes = p'.attributes;
            chunks = p'.chunks;
            few = omega (arith, p'.few, few);
          }
