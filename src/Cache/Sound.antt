-- ===== src/Cache/Sound.antt =====
-- The representation invariant of a cache, and the steps of the basic cache that keep it.
pub mod Misses
pub mod Operations
pub mod History
use colony_fs.Base.{
  ℕ, suc, ◌<◌, ◌≡◌, ◌≢◌, refl, sym, Option, none, some, List, [], ◌∷◌, arith, ite, ℕ_discrete, inl,
  inr, Option-cases, ◌∙◌,
}
use colony_fs.Base.Key.{Key}
use colony_fs.Base.Map.{
  Map, find, insert as map_insert, erase as map_erase, find-insert, find-erase, Unique,
  insert-Unique, erase-Unique,
}
use colony_fs.Base.Outcome.{ok}
use colony_fs.Cache.Heap.{Heap, update, allocate, put, free, release}
use colony_fs.Cache.Basic
use colony_fs.Cache.Basic.{Cache, release_all}
use colony_fs.Cache.Policy.{Policy}
use colony_fs.Cache.Front.{entry_key, new_object}

module _ {K T W : Type 0} ⦃o : Key K⦄ (api : Policy K T W) where
  open api use {get_key}

  -- Each entry denotes an object that is there and has the entry's key, so two entries never share
  -- one; the next name is unused; what is dirty is in the cache, and is listed once.
  pub record IsSound (c : Cache K T W) : Type 0 where
    pub live :
        (k : K) (q : ℕ) → find k c.whole ≡ some q → (v : T) × (c.cell q ≡ some v) × (get_key v ≡ k)
    pub fresh : (q : ℕ) (v : T) → c.cell q ≡ some v → q < c.next
    pub within : (k : K) (q : ℕ) → find k c.dirty ≡ some q → find k c.whole ≡ some q
    pub distinct : Unique c.dirty

  pub new_object-IsSound :
      (key : K) (c : Cache K T W) → IsSound c → IsSound (new_object api key c).1
  unfolding new_object
  new_object-IsSound key c s = record {
    live = λ k q h. let (v, e, g) = s.live k q h in (v, ground (arith, s.fresh q v e), g);
    fresh = λ q v e. ground (arith, s.fresh q v);
    within = s.within;
    distinct = s.distinct;
  }

  -- A new entry for an object that has the entry's key.
  pub insert-IsSound :
      (k : K) (r : ℕ) (v : T) (c : Cache K T W)
      → IsSound c
      → find k c.whole ≡ none
      → c.cell r ≡ some v
      → get_key v ≡ k
      → IsSound (Basic.insert k r c)
  unfolding Basic.insert
  insert-IsSound k r v c s absent e g =
      rw (absent, release)
        (record {
          live = λ j q h. elim (o.eq k j) [
            | yes same ↦ (v, ground (arith, find-insert j k r c.whole), ground arith)
            | no other ↦ s.live j q (ground (arith, find-insert j k r c.whole))
          ];
          fresh = s.fresh;
          within = λ j q h. ground (arith, s.within j q h, find-insert j k r c.whole);
          distinct = s.distinct;
        })

  pub set_dirty-IsSound : (k : K) (c : Cache K T W) → IsSound c → IsSound (Basic.set_dirty k c).1
  unfolding Basic.set_dirty
  set_dirty-IsSound k c s = elim (Option-cases (find k c.whole)) [
    | inl e ↦ rw (e, Basic.set_dirty) s
    | inr (r, e) ↦
        rw (e, Basic.set_dirty)
          (record {
            live = s.live;
            fresh = s.fresh;
            within = λ j q h. ground (arith, s.within j q, find-insert j k r c.dirty);
            distinct = insert-Unique k r c.dirty s.distinct;
          })
  ]

  pub erase-IsSound : (k : K) (c : Cache K T W) → IsSound c → IsSound (Basic.erase k c)
  unfolding Basic.erase free
  erase-IsSound k c s = elim (Option-cases (find k c.whole)) [
    | inl e ↦
        rw (e, release)
          (record {
            live = λ j q h. s.live j q (ground (arith, find-erase j k c.whole));
            fresh = s.fresh;
            within = λ j q h.
                ground (arith, s.within j q, find-erase j k c.whole, find-erase j k c.dirty);
            distinct = erase-Unique k c.dirty s.distinct;
          })
    | inr (r, e) ↦
        rw (e, release)
          (record {
            live = λ j q h.
                let h' : find j c.whole ≡ some q = ground (arith, find-erase j k c.whole) in
                let (v, f, g) = s.live j q h' in
                let (w, f', g') = s.live k r e in (v, ground (arith, find-erase j k c.whole), g);
            fresh = λ q v f. ground (arith, s.fresh q v);
            within = λ j q h.
                ground (arith, s.within j q, find-erase j k c.whole, find-erase j k c.dirty);
            distinct = erase-Unique k c.dirty s.distinct;
          })
  ]

  pub clear_dirty-IsSound : (k : K) (c : Cache K T W) → IsSound c → IsSound (Basic.clear_dirty k c)
  unfolding Basic.clear_dirty
  clear_dirty-IsSound k c s = record {
    live = s.live;
    fresh = s.fresh;
    within = λ j q h. ground (arith, s.within j q, find-erase j k c.dirty);
    distinct = erase-Unique k c.dirty s.distinct;
  }
