-- ===== src/Cache/Threads/Invariant/Objects.antt =====
-- Which changes of the shared cache leave a thread's own object alone.
use colony_fs.Base.{ℕ, ◌≡◌, ◌≢◌, none, some, arith, inl, inr, Option-cases, ℕ_discrete}
use colony_fs.Base.Key.{Key}
use colony_fs.Base.Map.{find, find-insert, find-erase}
use colony_fs.Cache.Heap.{put, free, release}
use colony_fs.Cache.Basic
use colony_fs.Cache.Basic.{Cache}
use colony_fs.Cache.Policy.{Policy}
use colony_fs.Cache.Front.{new_object}
use colony_fs.Cache.Sound.{IsSound}
use colony_fs.Cache.Threads.{Shared, with_cache, unlock, in_place, elsewhere, lock_new}
use colony_fs.Cache.Threads.Invariant.{Own}

module _ {K T W : Type 0} ⦃o : Key K⦄ (api : Policy K T W) (m : Shared K T W) (k : K) (r : ℕ)
    (own : Own api m k r) where
  pub Own-unlock : (j : K) → Own api (unlock j m) k r
  Own-unlock j = record {
    value = own.value;
    live = own.live;
    keyed = own.keyed;
    unshared = own.unshared;
  }

  pub Own-elsewhere : (w : W) → Own api (elsewhere w m) k r
  Own-elsewhere w = record {
    value = own.value;
    live = own.live;
    keyed = own.keyed;
    unshared = own.unshared;
  }

  pub Own-new_object :
      IsSound api m.cache → (j : K) → Own api (with_cache (new_object api j m.cache).1 m) k r
  unfolding new_object
  Own-new_object s j = record {
    value = own.value;
    live = ground (arith, own.live, s.fresh r own.value);
    keyed = own.keyed;
    unshared = own.unshared;
  }

  pub Own-lock_new : IsSound api m.cache → (j : K) → Own api (lock_new api j m) k r
  Own-lock_new s j =
      let n = Own-new_object s j in
      record { value = n.value; live = n.live; keyed = n.keyed; unshared = n.unshared }

  -- Its value may change, but not the value's key.
  pub Own-in_place :
      (q : ℕ) (v v' : T) (w : W)
      → m.cache.cell q ≡ some v
      → api.get_key v' ≡ api.get_key v
      → Own api (in_place q v' w m) k r
  unfolding put
  Own-in_place q v v' w there same = elim (ℕ_discrete q r) [
    | yes e ↦ record {
      value = v';
      live = ground arith;
      keyed = let f : some v ≡ some own.value = ground (arith, own.live) in cc;
      unshared = own.unshared;
    }
    | no other ↦ record {
      value = own.value;
      live = ground (arith, own.live);
      keyed = own.keyed;
      unshared = own.unshared;
    }
  ]

  pub Own-insert :
      (j : K) (q : ℕ)
      → find j m.cache.whole ≡ none
      → q ≢ r
      → Own api (with_cache (Basic.insert j q m.cache) m) k r
  unfolding Basic.insert
  Own-insert j q gone other =
      rw (gone, release)
        (record {
          value = own.value;
          live = own.live;
          keyed = own.keyed;
          unshared = λ i e. own.unshared i (ground (arith, find-insert i j q m.cache.whole));
        })

  pub Own-erase : (j : K) → Own api (with_cache (Basic.erase j m.cache) m) k r
  unfolding Basic.erase free
  Own-erase j = elim (Option-cases (find j m.cache.whole)) [
    | inl gone ↦
        rw (gone, release)
          (record {
            value = own.value;
            live = own.live;
            keyed = own.keyed;
            unshared = λ i e. own.unshared i (ground (arith, find-erase i j m.cache.whole));
          })
    | inr (q, there) ↦
        rw (there, release)
          (record {
            value = own.value;
            live = ground (arith, own.live, own.unshared j);
            keyed = own.keyed;
            unshared = λ i e. own.unshared i (ground (arith, find-erase i j m.cache.whole));
          })
  ]

  -- A change of what is dirty, and of the locks of `CV`.
  pub Own-same :
      (c : Cache K T W)
      → c.heap ≡ m.cache.heap
      → c.whole ≡ m.cache.whole
      → Own api (with_cache c m) k r
  Own-same c same_heap same_whole =
      rw (same_heap, same_whole)
        (record { value = own.value; live = own.live; keyed = own.keyed; unshared = own.unshared })
