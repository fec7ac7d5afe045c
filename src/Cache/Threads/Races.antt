-- ===== src/Cache/Threads/Races.antt =====
-- What the threads of cache/cache.hpp can do to each other: `purge(key)` and `invalidate(key)` take
-- no mutex, and nobody holds one while writing through a pointer.
use colony_fs.Base.{ℕ, ◌≡◌, ◌≢◌, refl, sym, ◌∙◌, ◌<◌, Option, none, some, arith}
use colony_fs.Base.Key.{Key}
use colony_fs.Base.Map.{find, insert as map_insert, find-erase}
use colony_fs.Base.Outcome.{ok}
use colony_fs.Cache.Heap.{put, free, release}
use colony_fs.Cache.Basic
use colony_fs.Cache.Basic.{Cache}
use colony_fs.Cache.Policy.{Policy}
use colony_fs.Cache.Front.{entry_key, new_object}
use colony_fs.Cache.Sound.{IsSound}
use colony_fs.Cache.Threads.{
  idle, erased, broken, clears, holds, Shared, with_cache, unlock, in_place, elsewhere, lock_new,
  subscript, found, marked, invalidate, flushed, write, cleared, purge, lost_write, System, Reach,
}
use colony_fs.Cache.Threads.Solo.{Moves, done, ◌▸◌, Moves-Moved, one_move, Reach-trans}

module _ {K T W : Type 0} ⦃o : Key K⦄ (api : Policy K T W) where
  open api use {get_key, on_flush}

  -- When one thread has a pointer to a live entry and another purges the entry's key, the pointer
  -- dangles: the next write through it is undefined.
  pub purge-holds :
      (s : System api) (i j : ℕ) (k : K) (q : ℕ)
      → j ≢ i
      → s.phase i ≡ holds q
      → s.phase j ≡ idle
      → find (entry_key api k) s.shared.cache.whole ≡ some q
      → (t : System api) × Reach api s t × (t.phase i ≡ broken)
  unfolding Basic.erase free new_object
  purge-holds s i j k q d held resting entry =
      let a = one_move api s j idle _ (erased k) resting (purge k) in
      let h = a.others i d ∙ held in
      let b =
        one_move api a.system i (holds q) _ broken h
          (lost_write (rw (a.shared, entry, release) (ground arith))) in
      (b.system, Reach-trans api s a.system b.system a.reach b.reach, b.phase)

  keyed_as :
      (k : K) (u v : T) {o : Option T} → o ≡ some u → o ≡ some v → get_key u ≡ k → get_key v ≡ k
  keyed_as k u v e f g = let x : some u ≡ some v = sym e ∙ f in let y : u ≡ v = cc in rw y at g

  -- What `operator[]` of a key with an entry, and a write through its pointer, make of the cache.
  abbrev written : K → ℕ → T → (T → T) → Shared K T W → Shared K T W
  written k q v f m = unlock k (
      in_place q (f v) m.cache.world (
        with_cache (record (lock_new api k m).cache { dirty = map_insert k q m.cache.dirty })
          (lock_new api k m)))

  set_dirty-entry :
      (j k : K) (q : ℕ) (c : Cache K T W)
      → j ≡ k
      → find k c.whole ≡ some q
      → Basic.set_dirty j c ≡ (ok tt, record c { dirty = map_insert k q c.dirty })
  unfolding Basic.set_dirty
  set_dirty-entry j k q c same entry =
      let there : find j c.whole ≡ some q = rw same entry in
      rw (← same) (rw (there, Basic.set_dirty) refl)

  read_dirty-entry :
      (j : K) (d q : ℕ) (c : Cache K T W)
      → find j c.dirty ≡ some d
      → find j c.whole ≡ some q
      → (Basic.read_dirty j c).0 ≡ ok q
  unfolding Basic.read_dirty Basic.read
  read_dirty-entry j d q c dirty entry = rw (dirty, entry, Basic.read_dirty, Basic.read) refl

  writes :
      (k : K) (q : ℕ) (v : T) (f : T → T) (m : Shared K T W)
      → find k m.mutexes ≡ none
      → entry_key api k ≡ k
      → find k m.cache.whole ≡ some q
      → m.cache.cell q ≡ some v
      → q < m.cache.next
      → get_key v ≡ k
      → ((u : T) → get_key (f u) ≡ get_key u)
      → Moves api m idle (written k q v f m) (holds q)
  unfolding new_object
  writes k q v f m free same entry live fresh keyed keeps =
      let there : find (entry_key api k) m.cache.whole ≡ some q = rw same entry in
      subscript k free
      ▸ found q there
      ▸ marked v _ (ground (arith, live)) (set_dirty-entry (get_key v) k q _ keyed entry)
      ▸ write v f (ground (arith, live)) keeps
      ▸ done

  -- What `invalidate(key)` makes of the cache before it clears the mark.
  abbrev flushing : K → W → Shared K T W → Shared K T W
  flushing k w m = elsewhere w (with_cache (new_object api k m.cache).1 m)

  flushes-Moves :
      (k : K) (d q : ℕ) (v : T) (w : W) (m : Shared K T W)
      → entry_key api k ≡ k
      → find k m.cache.dirty ≡ some d
      → find k m.cache.whole ≡ some q
      → m.cache.cell q ≡ some v
      → q < m.cache.next
      → on_flush v m.cache.world ≡ (ok tt, w)
      → Moves api m idle (flushing k w m) (clears k)
  unfolding new_object
  flushes-Moves k d q v w m same dirty entry live fresh flush =
      invalidate k q (rw same (read_dirty-entry k d q m.cache dirty entry))
      ▸ flushed v w (ground (arith, live)) flush
      ▸ done

  -- The second thread's call and write, when the first has flushed.
  flushed-writes :
      (k : K) (q : ℕ) (v : T) (w : W) (f : T → T) (m : Shared K T W)
      → find k m.mutexes ≡ none
      → entry_key api k ≡ k
      → find k m.cache.whole ≡ some q
      → m.cache.cell q ≡ some v
      → q < m.cache.next
      → get_key v ≡ k
      → ((u : T) → get_key (f u) ≡ get_key u)
      → Moves api (flushing k w m) idle (written k q v f (flushing k w m)) (holds q)
  unfolding new_object
  flushed-writes k q v w f m free same entry live fresh keyed keeps =
      writes k q v f (flushing k w m) free same entry (ground (arith, live)) (ground (arith, fresh))
        keyed keeps

  -- What is left when the mark is cleared.
  lost :
      (k : K) (q : ℕ) (v : T) (w : W) (f : T → T) (m : Shared K T W)
      → (let c = Basic.clear_dirty k (written k q v f (flushing k w m)).cache in
          (c.cell q ≡ some (f v)) × (find k c.dirty ≡ none) × (c.world ≡ w))
  unfolding Basic.clear_dirty put new_object
  lost k q v w f m =
      (ground arith, ground (arith, find-erase k k (map_insert k q m.cache.dirty)), refl)

  -- A write that is lost, on a sound cache where the key that the caller gives is the key of its
  -- entry, nobody is in a call, and the key's mutex is free: one thread may flush a dirty entry,
  -- another then get the entry from `operator[]`, write it by a change that keeps its key and have
  -- it marked as dirty, and the first clear the mark. The entry then holds the new value, the
  -- policy's world only the old one, and no mark of the key says so.
  pub invalidate-write :
      (s : System api) (i j : ℕ) (k : K) (d q : ℕ) (v : T) (w : W) (f : T → T)
      → i ≢ j
      → IsSound api s.shared.cache
      → s.phase i ≡ idle
      → s.phase j ≡ idle
      → find k s.shared.mutexes ≡ none
      → entry_key api k ≡ k
      → find k s.shared.cache.dirty ≡ some d
      → find k s.shared.cache.whole ≡ some q
      → s.shared.cache.cell q ≡ some v
      → on_flush v s.shared.cache.world ≡ (ok tt, w)
      → ((u : T) → get_key (f u) ≡ get_key u)
      → (t : System api) × Reach api s t
        × (t.phase i ≡ idle)
        × (t.phase j ≡ holds q)
        × (t.shared.cache.cell q ≡ some (f v))
        × (find k t.shared.cache.dirty ≡ none)
        × (t.shared.cache.world ≡ w)
  invalidate-write s i j k d q v w f apart sound resting waiting free same dirty entry live flush
        keeps =
      let (u, there, keyed) = sound.live k q entry in
      let fresh = sound.fresh q v live in
      let n = flushing k w s.shared in
      let a =
        Moves-Moved api s i idle resting
          (flushes-Moves k d q v w s.shared same dirty entry live fresh flush) in
      let moves : Moves api n idle (written k q v f n) (holds q) =
        flushed-writes k q v w f s.shared free same entry live fresh
          (keyed_as k u v there live keyed) keeps in
      let b =
        Moves-Moved api a.system j idle (a.others j apart ∙ waiting) (rw (sym a.shared) at moves) in
      let c =
        one_move api b.system i (clears k) _ idle (b.others i (λ e. apart (sym e)) ∙ a.phase)
          cleared in
      let r =
        Reach-trans api s b.system c.system (Reach-trans api s a.system b.system a.reach b.reach)
          c.reach in
      let p = c.others j apart ∙ b.phase in
      let e : c.system.shared
          ≡ with_cache (Basic.clear_dirty k (written k q v f n).cache) (written k q v f n) =
        rw b.shared at c.shared in
      let (x, y, z) = lost k q v w f s.shared in (c.system, r, c.phase, p, rw e x, rw e y, rw e z)
