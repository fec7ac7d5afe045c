-- ===== src/Cache/Threads/Atomic/Call.antt =====
-- `operator()` of cache/cache.hpp, made of the steps of one thread.
use colony_fs.Base.{ℕ, ◌≡◌, refl, ap, none, some, inl, inr, Option-cases, arith}
use colony_fs.Base.Key.{Key}
use colony_fs.Base.Map.{find, insert as map_insert}
use colony_fs.Base.Outcome.{Outcome, ok, raise, blocked, undefined}
use colony_fs.Cache.Basic
use colony_fs.Cache.Basic.{Cache}
use colony_fs.Cache.Policy.{Policy}
use colony_fs.Cache.Front
use colony_fs.Cache.Front.{entry_key, new_object}
use colony_fs.Cache.Threads.{
  idle, asks, holds, Shared, with_cache, unlock, in_place, lock_new, call, hit, miss, answered, cv,
  inserted,
}
use colony_fs.Cache.Threads.Solo.{Moves, done, ◌▸◌}
use colony_fs.Cache.Threads.Atomic.Ends.{unlocked, ended}

module _ {K T W : Type 0} ⦃o : Key K⦄ (api : Policy K T W) where
  open api use {get_key, new_pointer, pre_read, on_flush}

  asked-Moves :
      (k : K) (r q : ℕ) (m : Shared K T W) (c : Cache K T W) (v : T) (x : Outcome T) (w : W)
      → m.cache.cell r ≡ some v
      → pre_read v m.cache.world ≡ (x, w)
      → Front.fetch api r m.cache ≡ (ok q, c)
      → Moves api m (asks k r) (unlock k (with_cache c m)) (holds q)
  unfolding Front.fetch Front.load Front.in_world Front.enter Front.store Front.lock
  asked-Moves k r q m c v (raise y) w there f e =
      let g : (raise y, record m.cache { world = w }) ≡ (ok q, c) =
        rw (there, f, Front.load, Front.in_world) at e in
      cc
  asked-Moves k r q m c v blocked w there f e =
      let g : (blocked, record m.cache { world = w }) ≡ (ok q, c) =
        rw (there, f, Front.load, Front.in_world) at e in
      cc
  asked-Moves k r q m c v undefined w there f e =
      let g : (undefined, record m.cache { world = w }) ≡ (ok q, c) =
        rw (there, f, Front.load, Front.in_world) at e in
      cc
  asked-Moves k r q m c v (ok v') w there f e =
      elim (Option-cases (find (get_key v') m.cache.locked)) [
        | inr (u, held) ↦
            let g : (blocked, (in_place r v' w m).cache) ≡ (ok q, c) =
              rw
                (
                  there, f, there, held, Front.load, Front.in_world, Front.enter, Front.store,
                  Front.lock,
                )
                at e in
            let h : blocked ≡ ok q = ap (λ z. z.0) g in cc
        | inl free ↦
            let d = record (in_place r v' w m).cache {
              locked = map_insert (get_key v') tt m.cache.locked;
            } in
            let g : (ok r, Basic.insert (get_key v') r d) ≡ (ok q, c) =
              rw
                (
                  there, f, there, free, Front.load, Front.in_world, Front.enter, Front.store,
                  Front.lock,
                )
                at e in
            ended api (λ b. unlock k (with_cache b m)) m (asks k r) r q
              (Basic.insert (get_key v') r d) c g
              (answered v v' w there f
                ▸ cv v' (ground arith) free
                ▸ inserted v' (ground arith)
                ▸ done)
      ]

  fetch-Moves :
      (k : K) (r q : ℕ) (m : Shared K T W) (c : Cache K T W)
      → Front.fetch api r m.cache ≡ (ok q, c)
      → Moves api m (asks k r) (unlock k (with_cache c m)) (holds q)
  unfolding Front.fetch Front.load
  fetch-Moves k r q m c e = elim (Option-cases (m.cache.cell r)) [
    | inl gone ↦ let f : (undefined, m.cache) ≡ (ok q, c) = rw (gone, Front.load) at e in cc
    | inr (v, there) ↦
        let (x, w) = pre_read v m.cache.world in asked-Moves k r q m c v x w there refl e
  ]

  pub call-Moves :
      (k : K) (q : ℕ) (m : Shared K T W) (c : Cache K T W)
      → find k m.mutexes ≡ none
      → Front.call api k m.cache ≡ (ok q, c)
      → Moves api m idle (with_cache c m) (holds q)
  unfolding Front.call new_object Basic.read
  call-Moves k q m c free e = elim (Option-cases (find (entry_key api k) m.cache.whole)) [
    | inr (x, there) ↦
        let f : (ok x, (lock_new api k m).cache) ≡ (ok q, c) = rw (there, Basic.read) at e in
        unlocked api k m c (holds q) free (
          ended api (λ b. unlock k (with_cache b (lock_new api k m))) m idle x q
            (lock_new api k m).cache c f (call k free ▸ hit x there ▸ done))
    | inl gone ↦
        let f : Front.fetch api m.cache.next (lock_new api k m).cache ≡ (ok q, c) =
          rw (gone, Basic.read) at e in
        unlocked api k m c (holds q) free
          (call k free ▸ miss gone ▸ fetch-Moves k m.cache.next q (lock_new api k m) c f)
  ]
