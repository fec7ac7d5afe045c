-- ===== src/Cache/Threads/Invariant/After.antt =====
-- What the thread that moved in cache/cache.hpp knows, and how it stays apart from the others.
use colony_fs.Base.{ℕ, ◌≡◌, refl, sym, ◌∙◌, ap, none, some, arith}
use colony_fs.Base.Key.{Key}
use colony_fs.Base.Map.{find, find-insert_self}
use colony_fs.Base.Outcome.{Outcome}
use colony_fs.Cache.Basic
use colony_fs.Cache.Basic.{Cache}
use colony_fs.Cache.Policy.{Policy}
use colony_fs.Cache.Front.{new_object}
use colony_fs.Cache.Sound.{IsSound}
use colony_fs.Cache.Sound.Misses.{KeepsKey}
use colony_fs.Cache.Threads.{
  Phase, reads, asks, fills, inserts, takes, creates, marks, Shared, with_cache, in_place, lock_new,
  Move, call, miss, answered, cv, subscript, found, absent, created,
}
use colony_fs.Cache.Threads.Invariant.{inside, object, missing, Apart, Locks, Absent, Own, Good}
use colony_fs.Cache.Threads.Invariant.Objects.{Own-in_place, Own-same}

object-inside :
    {K : Type 0} (p : Phase K) (r : ℕ) → object p ≡ some r → (k : K) × (inside p ≡ some k)
object-inside (reads k q) r e = (k, refl)
object-inside (asks k q) r e = (k, refl)
object-inside (fills k q) r e = (k, refl)
object-inside (inserts k q) r e = (k, refl)
object-inside (takes k q) r e = (k, refl)
object-inside (creates k q) r e = (k, refl)
object-inside _ r e = cc

module _ {K T W : Type 0} ⦃o : Key K⦄ (api : Policy K T W) where
  -- A thread outside of every call.
  outside : (m : Shared K T W) (p : Phase K) → inside p ≡ none → missing p ≡ none → Good api m p
  outside m p i a = record {
    locks = λ k e. let f : none ≡ some k = sym i ∙ e in cc;
    own = λ k r e f. let f : none ≡ some k = sym i ∙ e in cc;
    absent = λ k e. let f : none ≡ some k = sym a ∙ e in cc;
  }

  -- A thread with its own object, that has not looked for an entry yet.
  searching :
      (m : Shared K T W) (p : Phase K) (k : K) (r : ℕ)
      → inside p ≡ some k
      → object p ≡ some r
      → missing p ≡ none
      → Locks api m k
      → Own api m k r
      → Good api m p
  searching m p k r i b a l w = record {
    locks = λ j e. let f : some k ≡ some j = sym i ∙ e in let h : k ≡ j = cc in rw h at l;
    own = λ j q e f.
        let x : some k ≡ some j = sym i ∙ e in
        let y : some r ≡ some q = sym b ∙ f in
        let x' : k ≡ j = cc in let y' : r ≡ q = cc in rw (x', y') at w;
    absent = λ j e. let f : none ≡ some j = sym a ∙ e in cc;
  }

  -- A thread that has seen that its key has no entry.
  missed :
      (m : Shared K T W) (p : Phase K) (k : K) (r : ℕ)
      → inside p ≡ some k
      → object p ≡ some r
      → missing p ≡ some k
      → Locks api m k
      → Own api m k r
      → Absent api m k
      → Good api m p
  missed m p k r i b a l w n = record {
    locks = λ j e. let f : some k ≡ some j = sym i ∙ e in let h : k ≡ j = cc in rw h at l;
    own = λ j q e f.
        let x : some k ≡ some j = sym i ∙ e in
        let y : some r ≡ some q = sym b ∙ f in
        let x' : k ≡ j = cc in let y' : r ≡ q = cc in rw (x', y') at w;
    absent = λ j e. let f : some k ≡ some j = sym a ∙ e in let h : k ≡ j = cc in rw h at n;
  }

  -- A thread whose pointer is that of an entry.
  marking : (m : Shared K T W) (k : K) (q : ℕ) → Locks api m k → Good api m (marks k q)
  marking m k q l = record {
    locks = λ j e. let h : k ≡ j = cc in rw h at l;
    own = λ j r e f. cc;
    absent = λ j e. cc;
  }

  lock_new-Own :
      (m : Shared K T W) (k : K) → IsSound api m.cache → Own api (lock_new api k m) k m.cache.next
  unfolding new_object
  lock_new-Own m k s = record {
    value = api.new_pointer k;
    live = ground arith;
    keyed = refl;
    unshared = λ j e.
        let (v, f, g) = s.live j m.cache.next e in absurd (omega (arith, s.fresh m.cache.next v f));
  }

  module _ (keeps : KeepsKey api) {m : Shared K T W} (s : IsSound api m.cache) where
    pub Move-Good :
        {m' : Shared K T W} {p p' : Phase K} → Move api m p m' p' → Good api m p → Good api m' p'
    Move-Good (call k free) g =
        searching (lock_new api k m) (reads k m.cache.next) k m.cache.next refl refl refl
          (find-insert_self k tt m.mutexes) (lock_new-Own m k s)
    Move-Good (subscript k free) g =
        searching (lock_new api k m) (takes k m.cache.next) k m.cache.next refl refl refl
          (find-insert_self k tt m.mutexes) (lock_new-Own m k s)
    Move-Good (miss {k} {r} e) g =
        missed m (asks k r) k r refl refl refl (g.locks k refl) (g.own k r refl refl) e
    Move-Good (absent {k} {r} e) g =
        missed m (creates k r) k r refl refl refl (g.locks k refl) (g.own k r refl refl) e
    Move-Good (answered {k} {r} v v' w e f) g =
        missed (in_place r v' w m) (fills k r) k r refl refl refl (g.locks k refl)
          (Own-in_place api m k r (g.own k r refl refl) r v v' w e
            (keeps v v' m.cache.world (ap (λ (y : Outcome T × W). y.0) f)))
          (g.absent k refl)
    Move-Good (cv {k} {r} v e f) g =
        missed _ (inserts k r) k r refl refl refl (g.locks k refl)
          (Own-same api m k r (g.own k r refl refl) _ refl refl) (g.absent k refl)
    Move-Good (found {k} {r} q e) g = marking m k q (g.locks k refl)
    Move-Good (created {k} {r} v e) g =
        marking (with_cache (Basic.insert (api.get_key v) r m.cache) m) k r (g.locks k refl)
    Move-Good _ g = outside _ _ refl refl

    -- The new object of a call is nobody else's, and nobody else holds the mutex.
    lock_new-Apart :
        (k : K) (p q : Phase K)
        → find k m.mutexes ≡ none
        → inside p ≡ some k
        → object p ≡ some m.cache.next
        → Good api m q
        → Apart p q
    lock_new-Apart k p q free i b h = record {
      keys = λ j e f.
          let x : some k ≡ some j = sym i ∙ e in
          let y : k ≡ j = cc in let l : some tt ≡ none = sym (h.locks j f) ∙ (rw y at free) in cc;
      objects = λ r e f.
          let x : some m.cache.next ≡ some r = sym b ∙ e in
          let (j, there) = object-inside q r f in
          let w = h.own j r there f in ground (arith, s.fresh r w.value w.live);
    }

    pub Move-Apart :
        {m' : Shared K T W} {p p' : Phase K} (q : Phase K)
        → Move api m p m' p'
        → Good api m q
        → Apart p q
        → Apart p' q
    Move-Apart q (call k free) h a = lock_new-Apart k (reads k m.cache.next) q free refl refl h
    Move-Apart q (subscript k free) h a = lock_new-Apart k (takes k m.cache.next) q free refl refl h
    Move-Apart q (found {k} {r} x e) h a = record { keys = a.keys; objects = λ r e f. cc }
    Move-Apart q (created {k} {r} v e) h a = record { keys = a.keys; objects = λ r e f. cc }
    Move-Apart q (miss e) h a = record { keys = a.keys; objects = a.objects }
    Move-Apart q (absent e) h a = record { keys = a.keys; objects = a.objects }
    Move-Apart q (answered v v' w e f) h a = record { keys = a.keys; objects = a.objects }
    Move-Apart q (cv v e f) h a = record { keys = a.keys; objects = a.objects }
    Move-Apart q _ h a = record { keys = λ k e f. cc; objects = λ r e f. cc }
