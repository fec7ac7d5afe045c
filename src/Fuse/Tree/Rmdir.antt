-- ===== src/Fuse/Tree/Rmdir.antt =====
-- `rmdir` of fuse/colonyfs_fusexx.cpp after `mkdir`.
use colony_fs.Base.{ℕ, String, List, [], ◌∷◌, true, none, some, ◌≡◌, ◌≢◌, refl, ◌∙◌, ap, arith, ite}
use colony_fs.Base.Key.{string_key}
use colony_fs.Base.Outcome.{Outcome, ok, pure, bind_ok}
use colony_fs.Cache.Basic.{Cache}
use colony_fs.Cache.Front.{entry_key, purge}
use colony_fs.Cache.Sound.{IsSound}
use colony_fs.Cache.Sound.Operations.{purge-IsSound}
use colony_fs.Cache.Sound.Misses.{world-IsSound}
use colony_fs.Cache.View.{view}
use colony_fs.Cache.View.Subscript.{purge_lem}
use colony_fs.Dht.Values.{Value}
use colony_fs.Fuse.Attribute.{Attribute, push_back, remove}
use colony_fs.Fuse.State.{Env, State, validate_path, purge_entry, on_lookup}
use colony_fs.Fuse.Tree.{mkdir, rmdir, success, enodev}
use colony_fs.Fuse.Tree.Directories.{mkdir_lem, named}
use colony_fs.Fuse.Tree.Unlink.{unlisted}
use colony_fs.Fuse.Update.{Attributes, IsKeyed, current, over, update_lem, update_then}

remove-push_back :
    (name : String) (xs : List String) → remove name (push_back xs name) ≡ remove name xs
remove-push_back name [] = ground arith
remove-push_back name (x ∷ xs) = ground (arith, remove-push_back name xs)

module _ {W : Type 0} (policy : Attributes W) where
  -- A path leaves the sink, and its name its parent's list.
  rmdir_lem :
      (env : Env) (full : String) (s : State W)
      → IsKeyed policy
      → IsSound policy s.metadata
      → entry_key policy full ≢ entry_key policy (env.parent_path full)
      → (policy.on_erase (policy.new_pointer full) s.world).0 ≡ ok tt
      → (s' : State W) × (rmdir policy env full s ≡ (ok success, s'))
        × ((j : String)
            → view s'.metadata j
              ≡ ite
                  (string_key.eq (entry_key policy (env.parent_path full)) j)
                  (some (
                    over
                      (unlisted policy (env.filename full))
                      (current policy (env.parent_path full) s)))
                  (ite (string_key.eq (entry_key policy full) j) none (view s.metadata j)))
        × (s'.chunks ≡ s.chunks)
  unfolding rmdir purge_entry
  rmdir_lem env full s keyed sound apart erased =
      let branch = env.parent_path full in
      let k = entry_key policy full in
      let f = unlisted policy (env.filename full) in
      let c : Cache String (Value Attribute) W = record s.metadata { world = s.world } in
      let i = world-IsSound policy s.world s.metadata sound in
      let d = (purge policy full c).1 in
      let s1 : State W = record s { metadata = d; world = d.world } in
      let e1 : purge_entry policy full s ≡ (ok tt, s1) =
        rw ((purge_lem policy full k c i).0 ∙ erased) refl in
      let (s2, e2, _, v2, _, c2) =
        update_lem policy branch f s1 keyed (purge-IsSound policy full c i) in
      (
        s2,
        bind_ok (purge_entry policy full) _ s s1 tt e1
            ∙ ap (λ (x : Outcome _ × State W). on_lookup x.0 (pure enodev) x.1)
                (update_then policy branch f (pure success) s1 s2 e2),
        λ j. ground (
          arith,
          v2 j,
          (purge_lem policy full j c i).1,
          (purge_lem policy full (entry_key policy branch) c i).1,
        ),
        c2,
      )

  -- A list that gains a name that it has not, and loses it, is what it was.
  back :
      (leaf : String) (p : Value Attribute)
      → remove leaf p.mapped.list ≡ p.mapped.list
      → over (unlisted policy leaf) (over (named policy leaf) p) ≡ p
  back leaf p fresh =
      ap (λ (xs : List String). record p { mapped = record p.mapped { list = xs } })
        (remove-push_back leaf p.mapped.list ∙ fresh)

  -- On a sound sink, where the parent is there and does not list the name, and the path is new:
  -- mkdir of a name of at most 255 bytes, and then rmdir, of a path that is not its own parent,
  -- succeeds where the policy's OnErase ends well, and the caches hold the attribute of each path
  -- and each chunk as before. What OnErase has written to the hash table may stay there.
  pub rmdir-mkdir :
      (env : Env) (full : String) (mode : ℕ) (p : Value Attribute) (s : State W)
      → IsKeyed policy
      → IsSound policy s.metadata
      → validate_path (env.filename full) ≡ true
      → entry_key policy full ≢ entry_key policy (env.parent_path full)
      → view s.metadata (entry_key policy full) ≡ none
      → view s.metadata (entry_key policy (env.parent_path full)) ≡ some p
      → remove (env.filename full) p.mapped.list ≡ p.mapped.list
      → ((w : W) → (policy.on_erase (policy.new_pointer full) w).0 ≡ ok tt)
      → let (r, s') = rmdir policy env full (mkdir policy env full mode s).1 in
        (r ≡ ok success)
        × ((j : String) → view s'.metadata j ≡ view s.metadata j)
        × (s'.chunks ≡ s.chunks)
  rmdir-mkdir env full mode p s keyed sound short apart fresh parent unnamed erased =
      let k = entry_key policy full in
      let b = entry_key policy (env.parent_path full) in
      let leaf = env.filename full in
      let (_, m) = mkdir_lem policy env full mode s keyed sound short apart in
      let s1 = (mkdir policy env full mode s).1 in
      let (s2, e2, v2, c2) = rmdir_lem env full s1 keyed m.sound apart (erased s1.world) in
      let now : view s1.metadata b ≡ some (over (named policy leaf) p) = ground (arith, m.listed) in
      rw e2 (refl, λ j. ground (arith, v2 j, now, back leaf p unnamed, m.others j), c2 ∙ m.chunks)
