-- ===== src/Cache/Sound/Misses.antt =====
-- What a miss of `operator()` of cache/cache.hpp writes keeps the representation invariant.
use colony_fs.Base.{ℕ, ◌≡◌, refl, none, some, arith, inl, inr, Option-cases, ℕ_discrete}
use colony_fs.Base.Key.{Key}
use colony_fs.Base.Map.{find, insert as map_insert}
use colony_fs.Base.Outcome.{Outcome, ok, raise, blocked, undefined, continue}
use colony_fs.Cache.Heap.{put, free}
use colony_fs.Cache.Basic
use colony_fs.Cache.Basic.{Cache, release_all, or_miss}
use colony_fs.Cache.Policy.{Policy}
use colony_fs.Cache.Front.{load, store, lock, enter, fetch}
use colony_fs.Cache.Sound.{IsSound, insert-IsSound}

module _ {K T W : Type 0} ⦃o : Key K⦄ (api : Policy K T W) where
  open api use {new_pointer, get_key, pre_read}

  -- A callback for a miss fills the value in and leaves its key alone.
  abbrev pub KeepsKey : Type 0
  KeepsKey = (v v' : T) (w : W) → (pre_read v w).0 ≡ ok v' → get_key v' ≡ get_key v

  -- A write through a pointer that leaves the object's key alone.
  pub put-IsSound :
      (r : ℕ) (v v' : T) (c : Cache K T W)
      → IsSound api c
      → c.cell r ≡ some v
      → get_key v' ≡ get_key v
      → IsSound api (record c { heap = put r v' c.heap })
  unfolding put
  put-IsSound r v v' c s e g = record {
    live = λ k q h.
        let (u, f, i) = s.live k q h in
        elim (ℕ_discrete r q) [
          | yes same ↦ (v', ground arith, ground arith)
          | no other ↦ (u, ground arith, i)
        ];
    fresh = λ q u f. ground (arith, s.fresh q u, s.fresh r v);
    within = s.within;
    distinct = s.distinct;
  }

  pub world-IsSound :
      (w : W) (c : Cache K T W) → IsSound api c → IsSound api (record c { world = w })
  world-IsSound w c s = record {
    live = s.live;
    fresh = s.fresh;
    within = s.within;
    distinct = s.distinct;
  }

  -- The object `r`, filled, becomes the entry of its key.
  abbrev pub entered : ℕ → T → Cache K T W → Cache K T W
  entered r v' c =
      Basic.insert (get_key v') r
        (record c { heap = put r v' c.heap; locked = map_insert (get_key v') tt c.locked })

  pub enter-ok :
      (r : ℕ) (v v' : T) (c : Cache K T W)
      → c.cell r ≡ some v
      → find (get_key v') c.locked ≡ none
      → enter api r v' c ≡ (ok r, entered r v' c)
  unfolding enter
  enter-ok r v v' c e free = rw (e, store) (rw (free, lock))

  pub enter-blocked :
      (r : ℕ) (v v' : T) (u : Unit {0}) (c : Cache K T W)
      → c.cell r ≡ some v
      → find (get_key v') c.locked ≡ some u
      → enter api r v' c ≡ (blocked, record c { heap = put r v' c.heap })
  unfolding enter
  enter-blocked r v v' u c e held = rw (e, store) (rw (held, lock))

  entered-IsSound :
      (r : ℕ) (v v' : T) (c : Cache K T W)
      → IsSound api c
      → c.cell r ≡ some v
      → find (get_key v) c.whole ≡ none
      → get_key v' ≡ get_key v
      → IsSound api (entered r v' c)
  unfolding put
  entered-IsSound r v v' c s e absent g =
      let d = record c { heap = put r v' c.heap; locked = map_insert (get_key v') tt c.locked } in
      let s' = put-IsSound r v v' c s e g in
      insert-IsSound api (get_key v') r v' d
        (record { live = s'.live; fresh = s'.fresh; within = s'.within; distinct = s'.distinct })
        (rw g absent) (ground arith) refl

  enter-IsSound :
      (r : ℕ) (v v' : T) (c : Cache K T W)
      → IsSound api c
      → c.cell r ≡ some v
      → find (get_key v) c.whole ≡ none
      → get_key v' ≡ get_key v
      → IsSound api (enter api r v' c).1
  enter-IsSound r v v' c s e absent g = elim (Option-cases (find (get_key v') c.locked)) [
    | inl free ↦ rw (enter-ok r v v' c e free) (entered-IsSound r v v' c s e absent g)
    | inr (u, held) ↦ rw (enter-blocked r v v' u c e held) (put-IsSound r v v' c s e g)
  ]

  -- A call that ends as its callback ended.
  ended-IsSound :
      (r : ℕ) (v : T) (x : Outcome T) (c : Cache K T W)
      → IsSound api c
      → c.cell r ≡ some v
      → find (get_key v) c.whole ≡ none
      → ((v' : T) → x ≡ ok v' → get_key v' ≡ get_key v)
      → IsSound api (continue x (enter api r) c).1
  ended-IsSound r v (ok v') c s e absent keeps = enter-IsSound r v v' c s e absent (keeps v' refl)
  ended-IsSound r v (raise x) c s e absent keeps = s
  ended-IsSound r v blocked c s e absent keeps = s
  ended-IsSound r v undefined c s e absent keeps = s

  pub fetch-IsSound :
      (r : ℕ) (v : T) (c : Cache K T W)
      → KeepsKey
      → IsSound api c
      → c.cell r ≡ some v
      → find (get_key v) c.whole ≡ none
      → IsSound api (fetch api r c).1
  unfolding fetch
  fetch-IsSound r v c keeps s e absent =
      rw (e, load)
        (ended-IsSound r v (pre_read v c.world).0 (record c { world = (pre_read v c.world).1 })
          (world-IsSound (pre_read v c.world).1 c s) e absent (λ v' h. keeps v v' c.world h))
