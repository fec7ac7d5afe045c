-- ===== src/Cache/Threads/Atomic/Flush.antt =====
-- `purge(key)` and `invalidate(key)` of cache/cache.hpp, made of the steps of one thread.
use colony_fs.Base.{ℕ, ◌≡◌, refl, ap, some, inl, inr, Option-cases}
use colony_fs.Base.Key.{Key}
use colony_fs.Base.Map.{find}
use colony_fs.Base.Outcome.{Outcome, ok, raise, undefined, cache_miss_e, continue, pure, modify}
use colony_fs.Cache.Basic
use colony_fs.Cache.Basic.{Cache}
use colony_fs.Cache.Policy.{Policy}
use colony_fs.Cache.Front
use colony_fs.Cache.Front.{entry_key, new_object}
use colony_fs.Cache.Threads.{
  idle, flushes, Shared, with_cache, purge, purged, invalidate, clean, flushed, unflushed, cleared,
}
use colony_fs.Cache.Threads.Solo.{Moves, done, ◌▸◌}

undefined-ok : {A P : Type 0} (a : A) → undefined ≡ ok a → P
undefined-ok a e = cc

module _ {K T W : Type 0} ⦃o : Key K⦄ (api : Policy K T W) where
  open api use {get_key, new_pointer, pre_read, on_flush}

  -- How `invalidate(key)` ends when it has flushed.
  after_flush : K → Outcome (Unit {0}) → Cache K T W → Outcome (Unit {0}) × Cache K T W
  unfolding Basic.clear_dirty
  after_flush k x c =
      let (y, d) = continue x (λ _. modify (Basic.clear_dirty k)) c in Front.on_miss y (pure tt) d

  flushed-Moves :
      (k : K) (q : ℕ) (m : Shared K T W) (c : Cache K T W) (v : T) (x : Outcome (Unit {0})) (w : W)
      → m.cache.cell q ≡ some v
      → on_flush v m.cache.world ≡ (x, w)
      → after_flush k x (record m.cache { world = w }) ≡ (ok tt, c)
      → Moves api m (flushes k q) (with_cache c m) idle
  unfolding after_flush Basic.clear_dirty
  flushed-Moves k q m c v (ok tt) w there f e =
      let g : Basic.clear_dirty k (record m.cache { world = w }) ≡ c = ap (λ z. z.1) e in
      let moves : Moves api m (flushes k q)
          (with_cache (Basic.clear_dirty k (record m.cache { world = w })) m) idle =
        flushed v w there f ▸ cleared ▸ done in
      rw (ap (λ (d : Cache K T W). with_cache d m) g) at moves
  flushed-Moves k q m c v (raise cache_miss_e) w there f e =
      let g : record m.cache { world = w } ≡ c = ap (λ z. z.1) e in
      let moves : Moves api m (flushes k q) (with_cache (record m.cache { world = w }) m) idle =
        unflushed v w cache_miss_e there f ▸ done in
      rw (ap (λ (d : Cache K T W). with_cache d m) g) at moves
  flushed-Moves k q m c v x w there f e = cc

  pub invalidate-Moves :
      (k : K) (m : Shared K T W) (c : Cache K T W)
      → Front.invalidate api k m.cache ≡ (ok tt, c)
      → Moves api m idle (with_cache c m) idle
  unfolding Front.invalidate Front.flush_entry new_object after_flush Basic.read_dirty Basic.read
  invalidate-Moves k m c e =
      let d = (new_object api k m.cache).1 in
      elim (Option-cases (find (entry_key api k) m.cache.dirty)) [
        | inl gone ↦
            let f : (ok tt, d) ≡ (ok tt, c) = rw (gone, Basic.read_dirty) at e in
            let moves : Moves api m idle (with_cache d m) idle =
              clean k (rw (gone, Basic.read_dirty) refl) ▸ done in
            rw (ap (λ (z : Outcome (Unit {0}) × Cache K T W). with_cache z.1 m) f) at moves
        | inr (r, there) ↦ elim (Option-cases (find (entry_key api k) m.cache.whole)) [
          | inl gone ↦
              let f : (ok tt, d) ≡ (ok tt, c) =
                rw (there, gone, Basic.read_dirty, Basic.read) at e in
              let moves : Moves api m idle (with_cache d m) idle =
                clean k (rw (there, gone, Basic.read_dirty, Basic.read) refl) ▸ done in
              rw (ap (λ (z : Outcome (Unit {0}) × Cache K T W). with_cache z.1 m) f) at moves
          | inr (q, entry) ↦ elim (Option-cases (d.cell q)) [
            | inl gone ↦
                let f : (undefined, d) ≡ (ok tt, c) =
                  rw (there, entry, gone, Basic.read_dirty, Basic.read, Front.load) at e in
                undefined-ok tt (ap (λ z. z.0) f)
            | inr (v, live) ↦
                let (x, w) = on_flush v m.cache.world in
                let f : after_flush k x (record d { world = w }) ≡ (ok tt, c) =
                  rw (there, entry, live, Basic.read_dirty, Basic.read, Front.load) at e in
                invalidate k q (rw (there, entry, Basic.read_dirty, Basic.read) refl)
                ▸ flushed-Moves k q (with_cache d m) c v x w live refl f
          ]
        ]
      ]

  pub purge-Moves :
      (k : K) (m : Shared K T W)
      → Moves api m idle (with_cache (Front.purge api k m.cache).1 m) idle
  unfolding Front.purge new_object Front.in_world
  purge-Moves k m = purge k ▸ purged ▸ done
