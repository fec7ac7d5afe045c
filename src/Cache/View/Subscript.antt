-- ===== src/Cache/View/Subscript.antt =====
-- `operator[]` and `purge` of cache/cache.hpp on the map that a cache is.
use colony_fs.Base.{ℕ, ◌≡◌, refl, Option, none, some, arith, ite, inl, inr, Option-cases, ◌∙◌, ap}
use colony_fs.Base.Key.{Key}
use colony_fs.Base.Map.{find, insert as map_insert, find-insert_self}
use colony_fs.Base.Outcome.{ok}
use colony_fs.Cache.Basic
use colony_fs.Cache.Basic.{Cache, or_miss}
use colony_fs.Cache.Policy.{Policy}
use colony_fs.Cache.Front.{entry_key, new_object, load, mark, subscript, purge}
use colony_fs.Cache.Sound.{IsSound, new_object-IsSound}
use colony_fs.Cache.View.{or_else, view, view-new_object, view-insert, view-erase}

module _ {K T W : Type 0} ⦃o : Key K⦄ (api : Policy K T W) where
  open api use {new_pointer, get_key}

  mark_lem :
      (k : K) (q : ℕ) (v : T) (c : Cache K T W)
      → c.cell q ≡ some v
      → get_key v ≡ k
      → find k c.whole ≡ some q
      → mark api q c ≡ (ok q, record c { dirty = map_insert k q c.dirty })
  unfolding mark Basic.set_dirty
  mark_lem k q v c e g h = rw (e, load, g, h, Basic.set_dirty) (rw g)

  -- The cache after `operator[]`, before the entry is marked.
  abbrev pub prepared : K → Option ℕ → Cache K T W → Cache K T W
  prepared key (some q) c = (new_object api key c).1
  prepared key none c = Basic.insert (entry_key api key) c.next (new_object api key c).1

  abbrev pub slot : Option ℕ → Cache K T W → ℕ
  slot (some q) c = q
  slot none c = c.next

  pub subscript_lem :
      (key : K) (c : Cache K T W)
      → IsSound api c
      → let k = entry_key api key in
        let q = slot (find k c.whole) c in
        let d = prepared key (find k c.whole) c in
        subscript api key c ≡ (ok q, record d { dirty = map_insert k q c.dirty })
  unfolding subscript new_object Basic.insert
  subscript_lem key c s =
      let k = entry_key api key in
      elim (Option-cases (find k c.whole)) [
        | inl miss ↦
            rw (miss, or_miss)
              (mark_lem k c.next (new_pointer key) (prepared key none c) (ground arith) refl
                (find-insert_self k c.next c.whole))
        | inr (q, hit) ↦
            let (v, e, g) = s.live k q hit in
            rw (hit, or_miss)
              (mark_lem k q v (new_object api key c).1 (ground (arith, s.fresh q v)) g hit)
      ]

  -- `operator[]` always returns: on a hit the entry that is there, on a miss a new value of the
  -- factory, which is not looked up anywhere. No other entry changes.
  pub view-subscript :
      (key j : K) (c : Cache K T W)
      → IsSound api c
      → let k = entry_key api key in
        view (subscript api key c).1 j
        ≡ ite (o.eq k j) (some (or_else (new_pointer key) (view c k))) (view c j)
  unfolding new_object
  view-subscript key j c s =
      let k = entry_key api key in
      let c' = (new_object api key c).1 in
      rw (subscript_lem key c s) (elim (Option-cases (find k c.whole)) [
        | inl miss ↦
            rw (miss, prepared)
              (view-insert api k j c.next (new_pointer key) c' miss (ground arith)
                ∙ ap (ite (o.eq k j) (some (new_pointer key))) (view-new_object api key j c s))
        | inr (q, hit) ↦
            let (v, e, g) = s.live k q hit in
            rw (hit, prepared) (view-new_object api key j c s ∙ rw e (ground arith))
      ])

  -- `operator[]` always returns. Its pointer is that of the entry, which is now dirty, and nothing
  -- outside the cache was read or written.
  pub subscript-entry :
      (key : K) (c : Cache K T W)
      → IsSound api c
      → let k = entry_key api key in
        let d = (subscript api key c).1 in
        (q : ℕ) × ((subscript api key c).0 ≡ ok q)
        × (find k d.whole ≡ some q)
        × (find k d.dirty ≡ some q)
        × (d.world ≡ c.world)
  unfolding new_object Basic.insert
  subscript-entry key c s =
      let k = entry_key api key in
      rw (subscript_lem key c s) (elim (Option-cases (find k c.whole)) [
        | inl miss ↦
            rw (miss, prepared, slot)
              (
                c.next,
                refl,
                find-insert_self k c.next c.whole,
                find-insert_self k c.next c.dirty,
                refl,
              )
        | inr (q, hit) ↦ rw (hit, prepared, slot) (q, refl, hit, find-insert_self k q c.dirty, refl)
      ])

  -- `purge(key)` removes the key's entry and no other, and ends as the policy's callback ends.
  pub purge_lem :
      (key j : K) (c : Cache K T W)
      → IsSound api c
      → let k = entry_key api key in
        ((purge api key c).0 ≡ (api.on_erase (new_pointer key) c.world).0)
        × (view (purge api key c).1 j ≡ ite (o.eq k j) none (view c j))
  unfolding purge
  purge_lem key j c s =
      let k = entry_key api key in
      let c' = (new_object api key c).1 in
      (
        refl,
        view-erase api k j c' (new_object-IsSound api key c s)
            ∙ ap (ite (o.eq k j) none) (view-new_object api key j c s),
      )
