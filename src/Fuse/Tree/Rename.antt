-- ===== src/Fuse/Tree/Rename.antt =====
-- What `rename` of fuse/colonyfs_fusexx.cpp makes of the tree.
pub mod Steps
use colony_fs.Base.{ℕ, sym, String, List, none, some, ◌≡◌, ◌≢◌, refl, ◌∙◌, ap, arith, ite}
use colony_fs.Base.Key.{ChunkKey, string_key, chunk_key}
use colony_fs.Base.Map.{find}
use colony_fs.Base.Outcome.{ok, Action, ◌>>=◌, ◌>>◌, pure, or_undefined, bind_ok}
use colony_fs.Cache.Front.{entry_key}
use colony_fs.Cache.Sound.{IsSound}
use colony_fs.Cache.View.{view}
use colony_fs.Dht.Values.{Value}
use colony_fs.Sink.Data.{Remote, DataSink, rename}
use colony_fs.Fuse.Attribute.{Attribute}
use colony_fs.Fuse.State.{
  Env, State, in_data, get_mapped, change, entry, lookup, purge_entry, size_of,
}
use colony_fs.Fuse.Tree.{rename_file, register, erase_first, success}
use colony_fs.Fuse.Tree.Directories.{named}
use colony_fs.Fuse.Update.{Attributes, IsKeyed, current, over, update_lem}
use colony_fs.Fuse.Update.Pointers.{get_mapped_lem, entered, changed, looked_up, purged}
use colony_fs.Fuse.Tree.Rename.Steps.{listing, relisted, replaced}

module _ {W : Type 0} (policy : Attributes W) (remote : Remote W) (chunk_size : ℕ) where
  -- A file that is there moves to another path: neither path is one of the parents.
  pub record Moves (env : Env) (oldfull newfull : String) (rest : List String) (v : Value Attribute)
      (s : State W) : Type 0 where
    pub sound : IsSound policy s.metadata
    pub there : view s.metadata (entry_key policy oldfull) ≡ some v
    pub listed :
        erase_first (env.filename oldfull) (current policy (env.parent_path oldfull) s).mapped.list
        ≡ some rest
    pub apart : entry_key policy newfull ≢ entry_key policy oldfull
    pub old_apart : entry_key policy (env.parent_path oldfull) ≢ entry_key policy oldfull
    pub new_apart : entry_key policy (env.parent_path newfull) ≢ entry_key policy oldfull
    pub old_outside : entry_key policy (env.parent_path oldfull) ≢ entry_key policy newfull
    pub new_outside : entry_key policy (env.parent_path newfull) ≢ entry_key policy newfull
    pub erased : (policy.on_erase (policy.new_pointer oldfull) s.world).0 ≡ ok tt

  -- The value of the new parent once the old one has lost the name.
  abbrev pub new_parent : Env → String → String → List String → State W → Value Attribute
  new_parent env oldfull newfull rest s =
      ite
        (string_key.eq (entry_key policy (env.parent_path oldfull))
          (entry_key policy (env.parent_path newfull)))
        (over (listing rest) (current policy (env.parent_path oldfull) s))
        (current policy (env.parent_path newfull) s)

  pub record Renamed (env : Env) (oldfull newfull : String) (rest : List String)
      (v : Value Attribute) (s s' : State W) : Type 0 where
    pub moved :
        view s'.metadata (entry_key policy newfull)
        ≡ some (over (λ a. v.mapped) (current policy newfull s))
    pub gone : view s'.metadata (entry_key policy oldfull) ≡ none
    pub unlisted :
        entry_key policy (env.parent_path newfull) ≢ entry_key policy (env.parent_path oldfull)
        → view s'.metadata (entry_key policy (env.parent_path oldfull))
          ≡ some (over (listing rest) (current policy (env.parent_path oldfull) s))
    pub listed :
        view s'.metadata (entry_key policy (env.parent_path newfull))
        ≡ some (over (named policy (env.filename newfull)) (new_parent env oldfull newfull rest s))
    pub others :
        (j : String)
        → entry_key policy oldfull ≢ j
        → entry_key policy newfull ≢ j
        → entry_key policy (env.parent_path oldfull) ≢ j
        → entry_key policy (env.parent_path newfull) ≢ j
        → view s'.metadata j ≡ view s.metadata j
    pub bytes : (j : ChunkKey) → view s'.chunks.cache j ≡ view s.chunks.cache j

  -- On a sound sink, `rename` of a file that is there and that its parent lists succeeds, where no
  -- path is one of the parents and the policy's `OnErase` ends well: the new path has the old one's
  -- attribute, the old path has none, the name leaves the old parent's list and stands last in the
  -- new parent's, and no other attribute changes. The chunks stay under the old name.
  pub rename_file_lem :
      (env : Env) (oldfull newfull : String) (rest : List String) (v : Value Attribute)
      (s : State W)
      → IsKeyed policy
      → Moves env oldfull newfull rest v s
      → let (r, s') = rename_file policy remote chunk_size env oldfull newfull s in
        (r ≡ ok success) × Renamed env oldfull newfull rest v s s'
  unfolding rename_file
  rename_file_lem env oldfull newfull rest v s keyed m =
      let branch = env.parent_path oldfull in
      let target = env.parent_path newfull in
      let ko = entry_key policy oldfull in
      let kn = entry_key policy newfull in
      let (s1, e1, i1, v1, w1, c1) =
        relisted policy remote chunk_size branch target (env.filename oldfull)
          (env.filename newfull) rest _ s keyed m.sound m.listed in
      let seen : view s1.metadata ko ≡ some v =
        ground (arith, v1 ko, m.old_apart, m.new_apart, m.there) in
      let (s2, e2, v2, bytes) =
        replaced policy remote chunk_size oldfull newfull v s1 keyed i1 seen m.apart
          (rw w1 m.erased) in
      let ran : rename_file policy remote chunk_size env oldfull newfull s ≡ (ok success, s2) =
        e1 ∙ e2 in
      rw ran (
        refl,
        record {
          moved = ground (arith, v2 kn, v1 kn, m.apart, m.old_outside, m.new_outside);
          gone = ground (arith, v2 ko);
          unlisted = λ d. ground (
            arith,
            v2 (entry_key policy branch),
            v1 (entry_key policy branch),
            d,
            m.old_apart,
            m.old_outside,
          );
          listed = ground (
            arith,
            v2 (entry_key policy target),
            v1 (entry_key policy target),
            m.new_apart,
            m.new_outside,
          );
          others = λ j a b c d. ground (arith, v2 j, v1 j, a, b, c, d);
          bytes = λ j. bytes j ∙ ap (λ (d : DataSink W). view d.cache j) c1;
        },
      )
