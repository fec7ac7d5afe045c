-- ===== src/Cache/Threads/Invariant/Others.antt =====
-- A move of one thread, seen by another one that stands in a call of cache/cache.hpp.
use colony_fs.Base.{ℕ, ◌≡◌, ◌≢◌, refl, sym, ◌∙◌, ap, none, some, arith, inl, inr, Option-cases}
use colony_fs.Base.Key.{Key}
use colony_fs.Base.Map.{find, insert as map_insert, find-insert, find-erase}
use colony_fs.Base.Outcome.{Outcome, ok, undefined}
use colony_fs.Cache.Basic
use colony_fs.Cache.Basic.{Cache}
use colony_fs.Cache.Policy.{Policy}
use colony_fs.Cache.Front.{entry_key, new_object}
use colony_fs.Cache.Sound.{IsSound}
use colony_fs.Cache.Sound.Misses.{KeepsKey}
use colony_fs.Cache.Threads.{
  Phase, asks, fills, inserts, creates, Shared, with_cache, unlock, elsewhere, lock_new, Move, call,
  hit, answered, refused, cv, inserted, subscript, created, marked, purge, purged, invalidate,
  clean, flushed, unflushed, cleared, write,
}
use colony_fs.Cache.Threads.Invariant.{inside, object, missing, Apart, Locks, Absent, Own, Good}
use colony_fs.Cache.Threads.Invariant.Objects.{
  Own-unlock, Own-elsewhere, Own-new_object, Own-lock_new, Own-in_place, Own-insert, Own-erase,
  Own-same,
}

pub missing-inside : {K : Type 0} (p : Phase K) (k : K) → missing p ≡ some k → inside p ≡ some k
missing-inside (asks k r) j e = e
missing-inside (fills k r) j e = e
missing-inside (inserts k r) j e = e
missing-inside (creates k r) j e = e
missing-inside _ j e = cc

module _ {K T W : Type 0} ⦃o : Key K⦄ (api : Policy K T W) where
  set_dirty-same :
      (k : K) (c d : Cache K T W) (x : Outcome (Unit {0}))
      → Basic.set_dirty k c ≡ (x, d)
      → (d.heap ≡ c.heap) × (d.whole ≡ c.whole)
  unfolding Basic.set_dirty
  set_dirty-same k c d x e = elim (Option-cases (find k c.whole)) [
    | inl gone ↦
        let f : (undefined, c) ≡ (x, d) = rw (gone, Basic.set_dirty) at e in
        (
          ap (λ (y : Outcome (Unit {0}) × Cache K T W). y.1.heap) (sym f),
          ap (λ (y : Outcome (Unit {0}) × Cache K T W). y.1.whole) (sym f),
        )
    | inr (r, there) ↦
        let f : (ok tt, record c { dirty = map_insert k r c.dirty }) ≡ (x, d) =
          rw (there, Basic.set_dirty) at e in
        (
          ap (λ (y : Outcome (Unit {0}) × Cache K T W). y.1.heap) (sym f),
          ap (λ (y : Outcome (Unit {0}) × Cache K T W). y.1.whole) (sym f),
        )
  ]

  Locks-lock_new : (m : Shared K T W) (j k : K) → Locks api m k → Locks api (lock_new api j m) k
  Locks-lock_new m j k l = ground (arith, find-insert k j tt m.mutexes)

  Locks-unlock : (m : Shared K T W) (j k : K) → j ≢ k → Locks api m k → Locks api (unlock j m) k
  Locks-unlock m j k apart l = ground (arith, find-erase k j m.mutexes)

  other : {k j : K} → some k ≢ some j → k ≢ j
  other d e = d (ap some e)

  Absent-erase :
      (c : Cache K T W) (i k : K) → find k c.whole ≡ none → find k (Basic.erase i c).whole ≡ none
  unfolding Basic.erase
  Absent-erase c i k a = ground (arith, find-erase k i c.whole)

  Absent-insert :
      (c : Cache K T W) (j k : K) (r : ℕ)
      → j ≢ k
      → find k c.whole ≡ none
      → find k (Basic.insert j r c).whole ≡ none
  unfolding Basic.insert
  Absent-insert c j k r d a = ground (arith, find-insert k j r c.whole)

  -- The mutex of another thread stays held.
  pub Locks-kept :
      {m m' : Shared K T W} {p p' : Phase K}
      → Move api m p m' p'
      → (k : K) → inside p ≢ some k
      → Locks api m k
      → Locks api m' k
  Locks-kept {m} (call j free) k d l = Locks-lock_new m j k l
  Locks-kept {m} (subscript j free) k d l = Locks-lock_new m j k l
  Locks-kept {m} (hit {k = j} q e) k d l = Locks-unlock m j k (other d) l
  Locks-kept {m} (refused {k = j} v w x e f) k d l = Locks-unlock (elsewhere w m) j k (other d) l
  Locks-kept {m} (inserted {k = j} {r = r} v e) k d l =
      Locks-unlock (with_cache (Basic.insert (api.get_key v) r m.cache) m) j k (other d) l
  Locks-kept {m} (marked {k = j} v c e f) k d l = Locks-unlock (with_cache c m) j k (other d) l
  Locks-kept _ k d l = l

  module _ (injective : (j k : K) → entry_key api j ≡ entry_key api k → j ≡ k)
      (keeps : KeepsKey api) {m : Shared K T W} (s : IsSound api m.cache) where
    -- The value of a thread's own object has the key of its call.
    pub own_key :
        (p : Phase K) (k : K) (r : ℕ) (v : T)
        → Good api m p
        → inside p ≡ some k
        → object p ≡ some r
        → m.cache.cell r ≡ some v
        → api.get_key v ≡ entry_key api k
    own_key p k r v g i b e =
        let w = g.own k r i b in
        let f : some v ≡ some w.value = sym e ∙ w.live in let h : v ≡ w.value = cc in rw h w.keyed

    Own-kept :
        {m' : Shared K T W} {p p' : Phase K}
        → Move api m p m' p'
        → Good api m p
        → (k : K) (r : ℕ) → object p ≢ some r
        → Own api m k r
        → Own api m' k r
    unfolding Basic.clear_dirty
    Own-kept (call j free) g k r d w = Own-lock_new api m k r w s j
    Own-kept (subscript j free) g k r d w = Own-lock_new api m k r w s j
    Own-kept (hit {k = j} q e) g k r d w = Own-unlock api m k r w j
    Own-kept (answered {k = j} {r = q} v v' x e f) g k r d w =
        Own-in_place api m k r w q v v' x e
          (keeps v v' m.cache.world (ap (λ (y : Outcome T × W). y.0) f))
    Own-kept (refused {k = j} v x y e f) g k r d w =
        Own-unlock api (elsewhere x m) k r (Own-elsewhere api m k r w x) j
    Own-kept (cv {k = j} v e f) g k r d w = Own-same api m k r w _ refl refl
    Own-kept (inserted {k = j} {r = q} v e) g k r d w =
        Own-unlock api (with_cache (Basic.insert (api.get_key v) q m.cache) m) k r
          (Own-insert api m k r w (api.get_key v) q
            (rw (own_key (inserts j q) j q v g refl refl e) (g.absent j refl)) (λ h. d (ap some h)))
          j
    Own-kept (created {k = j} {r = q} v e) g k r d w =
        Own-insert api m k r w (api.get_key v) q
          (rw (own_key (creates j q) j q v g refl refl e) (g.absent j refl)) (λ h. d (ap some h))
    Own-kept (marked {k = j} {q = q} v c e f) g k r d w =
        let (h, x) = set_dirty-same (api.get_key v) m.cache c (ok tt) f in
        Own-unlock api (with_cache c m) k r (Own-same api m k r w c h x) j
    Own-kept (purge j) g k r d w =
        Own-erase api (with_cache (new_object api j m.cache).1 m) k r
          (Own-new_object api m k r w s j) (entry_key api j)
    Own-kept (purged {k = j}) g k r d w = Own-elsewhere api m k r w _
    Own-kept (invalidate j q e) g k r d w = Own-new_object api m k r w s j
    Own-kept (clean j e) g k r d w = Own-new_object api m k r w s j
    Own-kept (flushed v x e f) g k r d w = Own-elsewhere api m k r w x
    Own-kept (unflushed v x y e f) g k r d w = Own-elsewhere api m k r w x
    Own-kept (cleared {k = j}) g k r d w = Own-same api m k r w _ refl refl
    Own-kept (write {q} v f e h) g k r d w =
        Own-in_place api m k r w q v (f v) m.cache.world e (h v)
    Own-kept _ g k r d w = w

    -- What a thread has seen to be missing stays so while it holds the mutex.
    Absent-kept :
        {m' : Shared K T W} {p p' : Phase K}
        → Move api m p m' p'
        → Good api m p
        → (k : K) → inside p ≢ some k
        → Absent api m k
        → Absent api m' k
    unfolding new_object Basic.clear_dirty
    Absent-kept (inserted {k = j} {r = q} v e) g k d a =
        rw (own_key (inserts j q) j q v g refl refl e) (
          Absent-insert m.cache (entry_key api j) (entry_key api k) q
            (λ h. other d (injective j k h)) a)
    Absent-kept (created {k = j} {r = q} v e) g k d a =
        rw (own_key (creates j q) j q v g refl refl e) (
          Absent-insert m.cache (entry_key api j) (entry_key api k) q
            (λ h. other d (injective j k h)) a)
    Absent-kept (marked {k = j} {q = q} v c e f) g k d a =
        let (h, x) = set_dirty-same (api.get_key v) m.cache c (ok tt) f in rw x a
    Absent-kept (purge j) g k d a =
        Absent-erase (new_object api j m.cache).1 (entry_key api j) (entry_key api k) a
    Absent-kept (call j free) g k d a = a
    Absent-kept (subscript j free) g k d a = a
    Absent-kept (invalidate j q e) g k d a = a
    Absent-kept (clean j e) g k d a = a
    Absent-kept _ g k d a = a

    -- What a thread knows stays true while another one moves.
    pub Good-kept :
        {m' : Shared K T W} {p p' : Phase K} (q : Phase K)
        → Move api m p m' p'
        → Good api m p
        → Apart p q
        → Good api m q
        → Good api m' q
    Good-kept {p = p} q mv g a h =
        let d : (k : K) → inside q ≡ some k → inside p ≢ some k = λ k e f. a.keys k f e in
        record {
          locks = λ k e. Locks-kept mv k (d k e) (h.locks k e);
          own = λ k r e f. Own-kept mv g k r (λ x. a.objects r x f) (h.own k r e f);
          absent = λ k e. Absent-kept mv g k (d k (missing-inside q k e)) (h.absent k e);
        }
