-- ===== src/Fuse/Update/Pointers.antt =====
-- The pointers to attributes that a handler of fuse/colonyfs_fusexx.cpp holds.
use colony_fs.Base.{
  ℕ, sym, String, none, some, ◌≡◌, ◌≢◌, refl, ◌∙◌, ap, ite, Option-cases, inl, inr,
}
use colony_fs.Base.Key.{string_key}
use colony_fs.Base.Map.{find}
use colony_fs.Base.Outcome.{ok, undefined}
use colony_fs.Cache.Basic.{Cache, or_miss}
use colony_fs.Cache.Front.{entry_key, new_object, call, subscript, edit, load, purge}
use colony_fs.Cache.Sound.{IsSound, new_object-IsSound}
use colony_fs.Cache.Sound.Operations.{subscript-IsSound, edit-IsSound}
use colony_fs.Cache.Sound.Misses.{world-IsSound}
use colony_fs.Cache.View.{view, view-new_object}
use colony_fs.Cache.View.Pointers.{subscript-pointer, edit-pointer, purge-freed, purge-pointer}
use colony_fs.Cache.View.Edit.{edit_lem, view-edit}
use colony_fs.Cache.View.Subscript.{subscript-entry, view-subscript, purge_lem}
use colony_fs.Dht.Values.{Value}
use colony_fs.Fuse.Attribute.{Attribute}
use colony_fs.Fuse.State.{State, get_mapped, entry, lookup, change, purge_entry}
use colony_fs.Fuse.Update.{Attributes, IsKeyed, current, over, update}

module _ {W : Type 0} (policy : Attributes W) where
  pub update-pointer :
      (key k : String) (f : Attribute → Attribute) (q : ℕ) (s : State W)
      → IsSound policy s.metadata
      → find k s.metadata.whole ≡ some q
      → find k (update policy key f s).1.metadata.whole ≡ some q
  unfolding entry change
  update-pointer key k f q s sound there =
      let c : Cache String (Value Attribute) W = record s.metadata { world = s.world } in
      let i = world-IsSound policy s.world s.metadata sound in
      let (r, e, _, _, _) = subscript-entry policy key c i in
      rw (e, edit-pointer policy r (over f) (subscript policy key c).1)
        (subscript-pointer policy key k q c i there)

  -- The value of an entry, through a pointer to it.
  pub get_mapped_lem :
      (k : String) (q : ℕ) (v : Value Attribute) (s : State W)
      → find k s.metadata.whole ≡ some q
      → view s.metadata k ≡ some v
      → s.metadata.world ≡ s.world
      → get_mapped q s ≡ (ok v.mapped, s)
  unfolding get_mapped
  get_mapped_lem k q v s there seen settled =
      let cell : s.metadata.cell q ≡ some v = rw there at seen in
      rw (cell, load)
        (ap (λ w. (ok v.mapped, record s { metadata = record s.metadata { world = w } }))
          (sym settled))

  -- A path is entered: the pointer is that of its entry.
  pub entered :
      (key : String) (s : State W)
      → IsSound policy s.metadata
      → (q : ℕ) × (s' : State W) × (entry policy key s ≡ (ok q, s'))
        × IsSound policy s'.metadata
        × (find (entry_key policy key) s'.metadata.whole ≡ some q)
        × ((j : String) (r : ℕ)
            → find j s.metadata.whole ≡ some r
            → find j s'.metadata.whole ≡ some r)
        × ((j : String)
            → view s'.metadata j
              ≡ ite
                  (string_key.eq (entry_key policy key) j)
                  (some (current policy key s))
                  (view s.metadata j))
        × (s'.world ≡ s.world)
        × (s'.metadata.world ≡ s'.world)
        × (s'.chunks ≡ s.chunks)
  unfolding entry
  entered key s sound =
      let c : Cache String (Value Attribute) W = record s.metadata { world = s.world } in
      let i = world-IsSound policy s.world s.metadata sound in
      let d = (subscript policy key c).1 in
      let (q, e, there, _, same) = subscript-entry policy key c i in
      (
        q,
        record s { metadata = d; world = d.world },
        rw e refl,
        subscript-IsSound policy key c i,
        there,
        λ j r h. subscript-pointer policy key j r c i h,
        λ j. view-subscript policy key j c i,
        same,
        refl,
        refl,
      )

  -- An attribute is changed through a pointer to its entry.
  pub changed :
      (k : String) (q : ℕ) (f : Attribute → Attribute) (v : Value Attribute) (s : State W)
      → IsKeyed policy
      → IsSound policy s.metadata
      → find k s.metadata.whole ≡ some q
      → view s.metadata k ≡ some v
      → (s' : State W) × (change q f s ≡ (ok tt, s'))
        × IsSound policy s'.metadata
        × (s'.metadata.whole ≡ s.metadata.whole)
        × ((j : String)
            → view s'.metadata j ≡ ite (string_key.eq k j) (some (over f v)) (view s.metadata j))
        × (s'.world ≡ s.world)
        × (s'.metadata.world ≡ s'.world)
        × (s'.chunks ≡ s.chunks)
  unfolding change
  changed k q f v s keyed sound there seen =
      let c : Cache String (Value Attribute) W = record s.metadata { world = s.world } in
      let i = world-IsSound policy s.world s.metadata sound in
      let cell : c.cell q ≡ some v = rw there at seen in
      let d = (edit q (over f) c).1 in
      let e = edit_lem policy q (over f) v c cell in
      (
        record s { metadata = d; world = d.world },
        rw e refl,
        edit-IsSound policy q (over f) c (λ u. keyed u (f u.mapped)) i,
        edit-pointer policy q (over f) c,
        λ j. view-edit policy k j q (over f) v c i there cell,
        rw e refl,
        refl,
        refl,
      )

  -- A path that the sink has is looked up: the pointer is that of its entry.
  pub looked_up :
      (key : String) (v : Value Attribute) (s : State W)
      → IsSound policy s.metadata
      → view s.metadata (entry_key policy key) ≡ some v
      → (q : ℕ) × (s' : State W) × (lookup policy key s ≡ (ok q, s'))
        × IsSound policy s'.metadata
        × (find (entry_key policy key) s'.metadata.whole ≡ some q)
        × ((j : String) → view s'.metadata j ≡ view s.metadata j)
        × (s'.world ≡ s.world)
        × (s'.metadata.world ≡ s'.world)
        × (s'.chunks ≡ s.chunks)
  unfolding lookup call new_object
  looked_up key v s sound seen =
      let k = entry_key policy key in
      let c : Cache String (Value Attribute) W = record s.metadata { world = s.world } in
      let i = world-IsSound policy s.world s.metadata sound in
      let d = (new_object policy key c).1 in
      elim (Option-cases (find k s.metadata.whole)) [
        | inl absent ↦ let e : none ≡ some v = rw absent at seen in cc
        | inr (q, hit) ↦ (
          q,
          record s { metadata = d; world = d.world },
          rw (hit, or_miss) refl,
          new_object-IsSound policy key c i,
          hit,
          λ j. view-new_object policy key j c i,
          refl,
          refl,
          refl,
        )
      ]

  -- The sink forgets a path, and what it deleted cannot be read through a pointer that is left.
  pub purged :
      (key : String) (q : ℕ) (s : State W)
      → IsSound policy s.metadata
      → find (entry_key policy key) s.metadata.whole ≡ some q
      → (policy.on_erase (policy.new_pointer key) s.world).0 ≡ ok tt
      → (s' : State W) × (purge_entry policy key s ≡ (ok tt, s'))
        × (get_mapped q s' ≡ (undefined, s'))
        × ((j : String) (r : ℕ)
            → entry_key policy key ≢ j
            → find j s.metadata.whole ≡ some r
            → find j s'.metadata.whole ≡ some r)
        × ((j : String)
            → view s'.metadata j
              ≡ ite (string_key.eq (entry_key policy key) j) none (view s.metadata j))
        × (s'.metadata.world ≡ s'.world)
        × (s'.chunks ≡ s.chunks)
  unfolding purge_entry get_mapped
  purged key q s sound there erased =
      let c : Cache String (Value Attribute) W = record s.metadata { world = s.world } in
      let i = world-IsSound policy s.world s.metadata sound in
      let d = (purge policy key c).1 in
      let gone : d.cell q ≡ none = purge-freed policy key q c there in
      let ends : (purge policy key c).0 ≡ ok tt = (purge_lem policy key key c i).0 ∙ erased in
      (
        record s { metadata = d; world = d.world },
        rw ends refl,
        rw (gone, load) refl,
        λ j r apart h. purge-pointer policy key j r c apart h,
        λ j. (purge_lem policy key j c i).1,
        refl,
        refl,
      )
