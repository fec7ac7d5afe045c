-- ===== src/Cache/Threads/Invariant/Mover.antt =====
-- A move of a thread in cache/cache.hpp: the cache stays sound, and the thread knows what it must.
use colony_fs.Base.{ℕ, ◌≡◌, refl, ap, some}
use colony_fs.Base.Key.{Key}
use colony_fs.Base.Outcome.{Outcome}
use colony_fs.Cache.Basic
use colony_fs.Cache.Basic.{Cache}
use colony_fs.Cache.Policy.{Policy}
use colony_fs.Cache.Front.{entry_key, new_object}
use colony_fs.Cache.Sound.{
  IsSound, new_object-IsSound, insert-IsSound, erase-IsSound, clear_dirty-IsSound,
  set_dirty-IsSound,
}
use colony_fs.Cache.Sound.Misses.{KeepsKey, put-IsSound, world-IsSound}
use colony_fs.Cache.Threads.{
  Phase, inserts, creates, Shared, Move, call, answered, refused, cv, inserted, subscript, created,
  marked, purge, purged, invalidate, clean, flushed, unflushed, cleared, write,
}
use colony_fs.Cache.Threads.Invariant.{inside, object, missing, Good}
use colony_fs.Cache.Threads.Invariant.Others.{own_key}

module _ {K T W : Type 0} ⦃o : Key K⦄ (api : Policy K T W) where
  module _ (injective : (j k : K) → entry_key api j ≡ entry_key api k → j ≡ k)
      (keeps : KeepsKey api) {m : Shared K T W} (s : IsSound api m.cache) where
    -- A thread's own object becomes the entry of its call's key.
    own_inserted :
        (p : Phase K) (k : K) (r : ℕ) (v : T)
        → Good api m p
        → inside p ≡ some k
        → object p ≡ some r
        → missing p ≡ some k
        → m.cache.cell r ≡ some v
        → IsSound api (Basic.insert (api.get_key v) r m.cache)
    own_inserted p k r v g i b a e =
        insert-IsSound api (api.get_key v) r v m.cache s
          (rw (own_key api injective keeps s p k r v g i b e) (g.absent k a)) e refl

    pub Move-IsSound :
        {m' : Shared K T W} {p p' : Phase K}
        → Move api m p m' p'
        → Good api m p
        → IsSound api m'.cache
    Move-IsSound (call k free) g = new_object-IsSound api k m.cache s
    Move-IsSound (subscript k free) g = new_object-IsSound api k m.cache s
    Move-IsSound (answered {r = r} v v' w e f) g = world-IsSound api w _ (
        put-IsSound api r v v' m.cache s e
          (keeps v v' m.cache.world (ap (λ (y : Outcome T × W). y.0) f)))
    Move-IsSound (refused v w x e f) g = world-IsSound api w m.cache s
    Move-IsSound (cv v e f) g = record {
      live = s.live;
      fresh = s.fresh;
      within = s.within;
      distinct = s.distinct;
    }
    Move-IsSound (inserted {k} {r} v e) g = own_inserted (inserts k r) k r v g refl refl refl e
    Move-IsSound (created {k} {r} v e) g = own_inserted (creates k r) k r v g refl refl refl e
    Move-IsSound (marked v c e f) g = rw f at (set_dirty-IsSound api (api.get_key v) m.cache s)
    Move-IsSound (purge k) g =
        erase-IsSound api (entry_key api k) (new_object api k m.cache).1
          (new_object-IsSound api k m.cache s)
    Move-IsSound (purged {k}) g = world-IsSound api _ m.cache s
    Move-IsSound (invalidate k q e) g = new_object-IsSound api k m.cache s
    Move-IsSound (clean k e) g = new_object-IsSound api k m.cache s
    Move-IsSound (flushed v w e f) g = world-IsSound api w m.cache s
    Move-IsSound (unflushed v w x e f) g = world-IsSound api w m.cache s
    Move-IsSound (cleared {k}) g = clear_dirty-IsSound api k m.cache s
    Move-IsSound (write {q} v f e h) g = put-IsSound api q v (f v) m.cache s e (h v)
    Move-IsSound _ g = s
