-- ===== src/Cache/Sound/Operations.antt =====
-- Every operation of cache/cache.hpp keeps the representation invariant, however it ends.
use colony_fs.Base.{ℕ, ◌≡◌, refl, some, [], ◌∷◌, arith, inl, inr, Option-cases}
use colony_fs.Base.Key.{Key}
use colony_fs.Base.Map.{Map, find}
use colony_fs.Base.Outcome.{
  Outcome, ok, raise, blocked, undefined, continue, pure, Action, cache_miss_e,
}
use colony_fs.Cache.Heap.{Heap, free}
use colony_fs.Cache.Basic
use colony_fs.Cache.Basic.{Cache, release_all, or_miss}
use colony_fs.Cache.Policy.{Policy}
use colony_fs.Cache.Front.{
  entry_key, new_object, load, store, edit, call, mark, subscript, purge, purge_all, flush_entry,
  invalidate, flush_all, invalidate_all, on_miss,
}
use colony_fs.Cache.Sound.Misses.{KeepsKey, put-IsSound, world-IsSound, fetch-IsSound}
use colony_fs.Cache.Sound.{
  IsSound, new_object-IsSound, insert-IsSound, set_dirty-IsSound, erase-IsSound,
  clear_dirty-IsSound,
}

-- A handler that does nothing leaves the state that it was given.
on_miss-state : {S : Type 0} (x : Outcome (Unit {0})) (s : S) → (on_miss x (pure tt) s).1 ≡ s
on_miss-state (raise cache_miss_e) s = refl
on_miss-state _ s = refl

module _ {K T : Type 0} where
  release_all-cell :
      (m : Map K ℕ) (h : Heap T) (q : ℕ) (v : T)
      → (release_all m h).cell q ≡ some v
      → (h.cell q ≡ some v) × ((release_all m h).next ≡ h.next)
  unfolding free
  release_all-cell [] h q v e = (e, refl)
  release_all-cell ((k, r) ∷ m) h q v e = ground (arith, release_all-cell m (free r h) q v e)

module _ {K T W : Type 0} ⦃o : Key K⦄ (api : Policy K T W) where
  open api use {new_pointer, get_key, pre_read}

  -- `operator()` keeps the invariant on a hit, a miss, an exception and a wait.
  pub call-IsSound :
      (key : K) (c : Cache K T W) → KeepsKey api → IsSound api c → IsSound api (call api key c).1
  unfolding call new_object
  call-IsSound key c keeps s =
      let c' = (new_object api key c).1 in
      let s' = new_object-IsSound api key c s in
      elim (Option-cases (find (entry_key api key) c.whole)) [
        | inl miss ↦
            rw (miss, or_miss)
              (fetch-IsSound api c.next (new_pointer key) c' keeps s' (ground arith) miss)
        | inr (q, hit) ↦ rw (hit, or_miss) s'
      ]

  -- A step that ends badly ends the call, and what follows a good one keeps the invariant.
  continue-IsSound :
      {A B : Type 0} (x : Outcome A) (f : A → Action (Cache K T W) B) (c : Cache K T W)
      → IsSound api c
      → ((a : A) → IsSound api (f a c).1)
      → IsSound api (continue x f c).1
  continue-IsSound (ok a) f c s h = h a
  continue-IsSound (raise e) f c s h = s
  continue-IsSound blocked f c s h = s
  continue-IsSound undefined f c s h = s

  -- The end of `operator[]`: the entry that the caller gets becomes dirty.
  mark-IsSound : (q : ℕ) (c : Cache K T W) → IsSound api c → IsSound api (mark api q c).1
  unfolding mark
  mark-IsSound q c s = elim (Option-cases (c.cell q)) [
    | inl gone ↦ rw (gone, load) s
    | inr (v, there) ↦
        rw (there, load)
          (let s' = set_dirty-IsSound api (get_key v) c s in
            continue-IsSound (Basic.set_dirty (get_key v) c).0 (λ _. pure q)
              (Basic.set_dirty (get_key v) c).1 s' (λ _. s'))
  ]

  pub subscript-IsSound :
      (key : K) (c : Cache K T W) → IsSound api c → IsSound api (subscript api key c).1
  unfolding subscript new_object
  subscript-IsSound key c s =
      let c' = (new_object api key c).1 in
      let s' = new_object-IsSound api key c s in
      elim (Option-cases (find (entry_key api key) c.whole)) [
        | inl miss ↦
            rw (miss, or_miss)
              (mark-IsSound c.next (Basic.insert (entry_key api key) c.next c') (
                insert-IsSound api (entry_key api key) c.next (new_pointer key) c' s' miss
                  (ground arith) refl))
        | inr (q, hit) ↦ rw (hit, or_miss) (mark-IsSound q c' s')
      ]

  pub purge-IsSound : (key : K) (c : Cache K T W) → IsSound api c → IsSound api (purge api key c).1
  unfolding purge
  purge-IsSound key c s =
      world-IsSound api (api.on_erase (new_pointer key) c.world).1
        (Basic.erase (entry_key api key) (new_object api key c).1)
        (erase-IsSound api (entry_key api key) (new_object api key c).1
          (new_object-IsSound api key c s))

  pub purge_all-IsSound : (c : Cache K T W) → IsSound api c → IsSound api (purge_all api c).1
  unfolding purge_all find
  purge_all-IsSound c s = record {
    live = λ k q h. cc;
    fresh = λ q v e. ground (arith, release_all-cell c.whole c.heap q v e, s.fresh q v);
    within = λ k q h. cc;
    distinct = tt;
  }

  flush_entry-IsSound :
      (key : K) (c : Cache K T W) → IsSound api c → IsSound api (flush_entry api key c).1
  unfolding flush_entry
  flush_entry-IsSound key c s = elim (Option-cases (find (entry_key api key) c.dirty)) [
    | inl clean ↦ rw (clean, Basic.read_dirty) s
    | inr (q, there) ↦
        let (v, e, g) = s.live (entry_key api key) q (s.within (entry_key api key) q there) in
        rw (there, Basic.read_dirty, s.within (entry_key api key) q there, or_miss, e, load)
          (let (x, w) = api.on_flush v c.world in
            continue-IsSound x (λ _ d. (ok tt, Basic.clear_dirty key d)) (record c { world = w })
              (world-IsSound api w c s)
              (λ _. clear_dirty-IsSound api key (record c { world = w }) (world-IsSound api w c s)))
  ]

  pub invalidate-IsSound :
      (key : K) (c : Cache K T W) → IsSound api c → IsSound api (invalidate api key c).1
  unfolding invalidate
  invalidate-IsSound key c s =
      let c' = (new_object api key c).1 in
      let (x, d) = flush_entry api key c' in
      rw (on_miss-state x d) (flush_entry-IsSound key c' (new_object-IsSound api key c s))

  -- A client's write through a pointer, where it leaves the key of the object alone.
  pub edit-IsSound :
      (r : ℕ) (f : T → T) (c : Cache K T W)
      → ((v : T) → get_key (f v) ≡ get_key v)
      → IsSound api c
      → IsSound api (edit r f c).1
  unfolding edit
  edit-IsSound r f c keeps s = elim (Option-cases (c.cell r)) [
    | inl gone ↦ rw (gone, load) s
    | inr (v, there) ↦
        rw (there, load, there, store) (put-IsSound api r v (f v) c s there (keeps v))
  ]

  flush_all-IsSound :
      (m : Map K ℕ) (c : Cache K T W) → IsSound api c → IsSound api (flush_all api m c).1
  unfolding flush_all
  flush_all-IsSound [] c s = s
  flush_all-IsSound ((k, q) ∷ m) c s = elim (Option-cases (c.cell q)) [
    | inl gone ↦ rw (gone, load) s
    | inr (v, there) ↦
        rw (there, load)
          (let (x, w) = api.on_flush v c.world in
            continue-IsSound x (λ _. flush_all api m) (record c { world = w })
              (world-IsSound api w c s)
              (λ _. flush_all-IsSound m (record c { world = w }) (world-IsSound api w c s)))
  ]

  pub invalidate_all-IsSound :
      (c : Cache K T W) → IsSound api c → IsSound api (invalidate_all api c).1
  unfolding invalidate_all find
  invalidate_all-IsSound c s =
      let s' = flush_all-IsSound c.dirty c s in
      let (x, d) = flush_all api c.dirty c in
      continue-IsSound x _ d s' (λ _.
        world-IsSound api _ (record d { dirty = [] })
          (record { live = s'.live; fresh = s'.fresh; within = λ k q h. cc; distinct = tt }))
