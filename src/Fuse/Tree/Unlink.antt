-- ===== src/Fuse/Tree/Unlink.antt =====
-- `unlink` of fuse/colonyfs_fusexx.cpp, which reads an attribute that it has deleted.
use colony_fs.Base.{
  ℕ, String, Bool, true, false, none, some, ◌≡◌, ◌≢◌, refl, ◌∙◌, arith, not, ◌==◌, ◌&&◌,
  if◌then◌else◌,
}
use colony_fs.Base.Int.{ℤ}
use colony_fs.Base.Key.{string_key}
use colony_fs.Base.Map.{find}
use colony_fs.Base.Outcome.{ok, undefined, Action, ◌>>=◌, ◌>>◌, pure, bind_ok}
use colony_fs.Cache.Front.{entry_key}
use colony_fs.Cache.Sound.{IsSound}
use colony_fs.Cache.View.{view}
use colony_fs.Sink.Data.{Remote, erase}
use colony_fs.Fuse.Attribute.{Attribute, remove}
use colony_fs.Fuse.State.{
  Env, State, in_data, validate_path, get_mapped, entry, change, purge_entry, size_of,
}
use colony_fs.Fuse.Tree.{unlink, success, eacces}
use colony_fs.Fuse.Update.{Attributes, IsKeyed, current, over, update_lem, update_then}
use colony_fs.Fuse.Update.Pointers.{update-pointer, get_mapped_lem, entered, purged}

module _ {W : Type 0} (policy : Attributes W) where
  abbrev pub unlisted : String → Attribute → Attribute
  unlisted leaf a = record a { list = remove leaf a.list }

  -- Who may not remove a file.
  abbrev pub denied : Env → Attribute → Bool
  denied env a = not (a.stbuf.st_uid == env.uid) && not (env.uid == 0)

  -- On a sound sink, `unlink` of a name of at most 255 bytes by a user who may remove the file, of
  -- a path that is not its own parent, reads an attribute that it has deleted, where the policy's
  -- `OnErase` ends well: by then the path has no entry and its parent does not list the name.
  pub unlink_undefined :
      (remote : Remote W) (chunk_size : ℕ) (env : Env) (full : String) (s : State W)
      → IsKeyed policy
      → IsSound policy s.metadata
      → validate_path (env.filename full) ≡ true
      → entry_key policy full ≢ entry_key policy (env.parent_path full)
      → denied env (current policy full s).mapped ≡ false
      → (policy.on_erase (policy.new_pointer full) s.world).0 ≡ ok tt
      → let (r, s') = unlink policy remote chunk_size env full s in
        (r ≡ undefined)
        × (view s'.metadata (entry_key policy full) ≡ none)
        × (view s'.metadata (entry_key policy (env.parent_path full))
            ≡ some (over (unlisted (env.filename full)) (current policy (env.parent_path full) s)))
  unfolding unlink
  unlink_undefined remote chunk_size env full s keyed sound short apart allowed erased =
      let k = entry_key policy full in
      let branch = env.parent_path full in
      let b = entry_key policy branch in
      let f = unlisted (env.filename full) in
      let (q, s1, e1, i1, there1, _, v1, w1, settled, _) = entered policy full s sound in
      let g1 =
        get_mapped_lem policy k q (current policy full s) s1 there1 (ground (arith, v1 k))
          settled in
      let (s2, e2, i2, v2, w2, _) = update_lem policy branch f s1 keyed i1 in
      let there2 : find k s2.metadata.whole ≡ some q =
        rw e2 at (update-pointer policy branch k f q s1 i1 there1) in
      let (s3, e3, g3, _, v3, _, _) = purged policy full q s2 i2 there2 (rw (w2, w1) erased) in
      let a = (current policy full s).mapped in
      let rest : Action (State W) ℤ = (do
        purge_entry policy full
        gone ← get_mapped q
        in_data (erase remote chunk_size full (size_of gone.stbuf.st_size))
        pure success) in
      let body : ℕ → Attribute → Action (State W) ℤ = λ p x.
        if denied env x then pure eacces else (do
          parent ← entry policy branch
          change parent f
          purge_entry policy full
          gone ← get_mapped p
          in_data (erase remote chunk_size full (size_of gone.stbuf.st_size))
          pure success) in
      let ran : unlink policy remote chunk_size env full s ≡ (undefined, s3) = rw short (
        bind_ok (entry policy full) (λ p. get_mapped p >>= body p) s s1 q e1
        ∙ bind_ok (get_mapped q) (body q) s1 s1 a g1
        ∙ rw allowed (
            update_then policy branch f rest s1 s2 e2
            ∙ bind_ok (purge_entry policy full) _ s2 s3 tt e3
            ∙ rw g3 refl)) in
      rw ran (refl, ground (arith, v3 k), ground (arith, v3 b, v2 b, v1 b))
