-- ===== src/Fuse/Tree/Rename/Steps.antt =====
-- The two halves of `rename` of fuse/colonyfs_fusexx.cpp: the lists of the parents, and the paths.
use colony_fs.Base.{ℕ, sym, String, List, none, some, ◌≡◌, ◌≢◌, ◌∙◌, ap, arith, ite}
use colony_fs.Base.Key.{ChunkKey, string_key, chunk_key}
use colony_fs.Base.Map.{find}
use colony_fs.Base.Outcome.{ok, Action, ◌>>=◌, ◌>>◌, pure, or_undefined, bind_ok}
use colony_fs.Cache.Front.{entry_key}
use colony_fs.Cache.Sound.{IsSound}
use colony_fs.Cache.View.{view}
use colony_fs.Dht.Values.{Value}
use colony_fs.Sink.Data.{Remote, DataSink, rename}
use colony_fs.Fuse.Attribute.{Attribute}
use colony_fs.Fuse.State.{State, in_data, get_mapped, change, entry, lookup, purge_entry, size_of}
use colony_fs.Fuse.Tree.{register, erase_first, success}
use colony_fs.Fuse.Tree.Directories.{named}
use colony_fs.Fuse.Update.{Attributes, IsKeyed, current, over, update_lem}
use colony_fs.Fuse.Update.Pointers.{get_mapped_lem, entered, changed, looked_up, purged}

-- The old parent's list loses the name.
abbrev pub listing : List String → Attribute → Attribute
listing rest a = record a { list = rest }

module _ {W : Type 0} (policy : Attributes W) (remote : Remote W) (chunk_size : ℕ) where
  -- `rename` up to the two lists.
  pub relisted :
      {B : Type 0} (branch target oldleaf newleaf : String) (rest : List String)
      (k : Action (State W) B) (s : State W)
      → IsKeyed policy
      → IsSound policy s.metadata
      → erase_first oldleaf (current policy branch s).mapped.list ≡ some rest
      → (s' : State W) × ((entry policy branch >>= λ p. get_mapped p >>= λ a.
              or_undefined (erase_first oldleaf a.list) >>= λ xs.
              change p (listing xs) >> (register policy target newleaf >> k))
            s
          ≡ k s')
        × IsSound policy s'.metadata
        × ((j : String)
            → view s'.metadata j
              ≡ ite
                  (string_key.eq (entry_key policy target) j)
                  (some (
                    over (named policy newleaf) (
                      ite
                        (string_key.eq (entry_key policy branch) (entry_key policy target))
                        (over (listing rest) (current policy branch s))
                        (current policy target s))))
                  (ite
                    (string_key.eq (entry_key policy branch) j)
                    (some (over (listing rest) (current policy branch s)))
                    (view s.metadata j)))
        × (s'.world ≡ s.world)
        × (s'.chunks ≡ s.chunks)
  unfolding register
  relisted branch target oldleaf newleaf rest k s keyed sound listed =
      let kb = entry_key policy branch in
      let kt = entry_key policy target in
      let b = current policy branch s in
      let (p, s1, e1, i1, there1, _, v1, w1, t1, c1) = entered policy branch s sound in
      let seen1 : view s1.metadata kb ≡ some b = ground (arith, v1 kb) in
      let g1 = get_mapped_lem policy kb p b s1 there1 seen1 t1 in
      let (s2, e2, i2, _, v2, w2, _, c2) =
        changed policy kb p (listing rest) b s1 keyed i1 there1 seen1 in
      let (s3, e3, i3, v3, w3, c3) = update_lem policy target (named policy newleaf) s2 keyed i2 in
      (
        s3,
        bind_ok (entry policy branch) _ s s1 p e1
            ∙ bind_ok (get_mapped p) _ s1 s1 b.mapped g1
            ∙ rw listed (
                bind_ok (change p (listing rest)) _ s1 s2 tt e2
                ∙ bind_ok (register policy target newleaf) (λ _. k) s2 s3 tt e3),
        i3,
        λ j. ground (arith, v3 j, v2 j, v2 kt, v1 j, v1 kt),
        w3 ∙ w2 ∙ w1,
        c3 ∙ c2 ∙ c1,
      )

  -- `rename` after the two lists.
  pub replaced :
      (oldfull newfull : String) (v : Value Attribute) (s : State W)
      → IsKeyed policy
      → IsSound policy s.metadata
      → view s.metadata (entry_key policy oldfull) ≡ some v
      → entry_key policy newfull ≢ entry_key policy oldfull
      → (policy.on_erase (policy.new_pointer oldfull) s.world).0 ≡ ok tt
      → (s' : State W) × ((lookup policy oldfull >>= λ old. entry policy newfull >>= λ new.
              get_mapped old >>= λ moved.
              change new (λ b. moved)
              >> (purge_entry policy oldfull
                  >> (get_mapped new >>= λ kept.
                      in_data
                        (rename remote chunk_size oldfull newfull (size_of kept.stbuf.st_size))
                      >> pure success)))
            s
          ≡ (ok success, s'))
        × ((j : String)
            → view s'.metadata j
              ≡ ite (string_key.eq (entry_key policy oldfull) j) none (
                  ite
                    (string_key.eq (entry_key policy newfull) j)
                    (some (over (λ a. v.mapped) (current policy newfull s)))
                    (view s.metadata j)))
        × ((j : ChunkKey) → view s'.chunks.cache j ≡ view s.chunks.cache j)
  unfolding rename
  replaced oldfull newfull v s keyed sound seen apart erased =
      let ko = entry_key policy oldfull in
      let kn = entry_key policy newfull in
      let (q, s1, e1, i1, there1, v1, w1, _, c1) = looked_up policy oldfull v s sound seen in
      let (r, s2, e2, i2, there2, kept2, v2, w2, t2, c2) = entered policy newfull s1 i1 in
      let c = current policy newfull s1 in
      let seen2 : view s2.metadata ko ≡ some v = ground (arith, v2 ko, v1 ko) in
      let g2 = get_mapped_lem policy ko q v s2 (kept2 ko q there1) seen2 t2 in
      let at_new : view s2.metadata kn ≡ some c = ground (arith, v2 kn) in
      let (s3, e3, i3, o3, v3, w3, _, c3) =
        changed policy kn r (λ a. v.mapped) c s2 keyed i2 there2 at_new in
      let there3 : find ko s3.metadata.whole ≡ some q = rw o3 (kept2 ko q there1) in
      let (s4, e4, _, kept4, v4, t4, c4) =
        purged policy oldfull q s3 i3 there3 (rw (w3, w2, w1) erased) in
      let r4 : find kn s4.metadata.whole ≡ some r =
        kept4 kn r (λ e. apart (sym e)) (rw o3 there2) in
      let seen4 : view s4.metadata kn ≡ some (over (λ a. v.mapped) c) =
        ground (arith, v4 kn, v3 kn) in
      let g4 = get_mapped_lem policy kn r (over (λ a. v.mapped) c) s4 r4 seen4 t4 in
      (
        (in_data (rename remote chunk_size oldfull newfull (size_of v.mapped.stbuf.st_size)) s4).1,
        bind_ok (lookup policy oldfull) _ s s1 q e1
            ∙ bind_ok (entry policy newfull) _ s1 s2 r e2
            ∙ bind_ok (get_mapped q) _ s2 s2 v.mapped g2
            ∙ bind_ok (change r (λ a. v.mapped)) _ s2 s3 tt e3
            ∙ bind_ok (purge_entry policy oldfull) _ s3 s4 tt e4
            ∙ bind_ok (get_mapped r) _ s4 s4 v.mapped g4,
        λ j. ground (arith, v4 j, v3 j, v2 j, v1 j, v1 kn),
        λ j. ap (λ (d : DataSink W). view d.cache j) (c4 ∙ c3 ∙ c2 ∙ c1),
      )
