-- ===== src/Cache/Threads/Atomic.antt =====
-- The calls of cache/cache.hpp as they are without other threads, made of the steps of one thread.
pub mod Ends
pub mod Subscript
pub mod Call
pub mod Flush
use colony_fs.Base.{ℕ, ◌≡◌, refl, ap, subst, none, some, inl, inr, Option-cases, arith}
use colony_fs.Base.Key.{Key}
use colony_fs.Base.Map.{find, insert as map_insert, erase-insert}
use colony_fs.Base.Outcome.{
  Outcome, ok, raise, blocked, undefined, cache_miss_e, Action, continue, pure, modify, ◌>>=◌, ◌>>◌,
}
use colony_fs.Cache.Basic
use colony_fs.Cache.Basic.{Cache}
use colony_fs.Cache.Policy.{Policy}
use colony_fs.Cache.Front
use colony_fs.Cache.Front.{entry_key, new_object}
use colony_fs.Cache.Threads.{
  Phase, idle, asks, marks, flushes, holds, Shared, with_cache, unlock, in_place, lock_new, Move,
  call, hit, miss, answered, cv, inserted, subscript, found, absent, created, marked, purge, purged,
  invalidate, clean, flushed, unflushed, cleared,
}
use colony_fs.Cache.Threads.Solo.{Moves, done, ◌▸◌}
use colony_fs.Cache.Threads.Atomic.Subscript.{subscript-Moves}
use colony_fs.Cache.Threads.Atomic.Call.{call-Moves}
use colony_fs.Cache.Threads.Atomic.Flush.{purge-Moves, invalidate-Moves}

module _ {K T W : Type 0} ⦃o : Key K⦄ (api : Policy K T W) where
  open api use {get_key, new_pointer, pre_read, on_flush}

  pub data Operation : Type 0 where
    calls subscripts purges invalidates : K → Operation

  -- A call of the cache without other threads, and where its thread then stands.
  abbrev pub perform : Operation → Action (Cache K T W) (Phase K)
  perform (calls k) = do r ← Front.call api k; pure (holds r)
  perform (subscripts k) = do r ← Front.subscript api k; pure (holds r)
  perform (purges k) = do Front.purge api k; pure idle
  perform (invalidates k) = do Front.invalidate api k; pure idle

  abbrev pub key_of : Operation → K
  key_of (calls k) = k
  key_of (subscripts k) = k
  key_of (purges k) = k
  key_of (invalidates k) = k

  -- An action that only adds its thread's phase.
  ends_in :
      {A : Type 0} (act : Outcome A × Cache K T W) (f : A → Phase K) (p : Phase K) (c : Cache K T W)
      → (let (x, d) = act in continue x (λ a. pure (f a)) d) ≡ (ok p, c)
      → (a : A) × (act ≡ (ok a, c)) × (f a ≡ p)
  ends_in (ok a, d) f p c e =
      let g : ok (f a) ≡ ok p = ap (λ z. z.0) e in
      let h : f a ≡ p = cc in (a, ap (λ (z : Outcome (Phase K) × Cache K T W). (ok a, z.1)) e, h)
  ends_in _ f p c e = cc

  -- A call of the cache that returns without other threads also returns, with the same cache and
  -- the same pointer, as steps of its thread while the others wait, when its key's mutex is free.
  pub perform-Moves :
      (q : Operation) (m : Shared K T W) (c : Cache K T W) (p : Phase K)
      → find (key_of q) m.mutexes ≡ none
      → perform q m.cache ≡ (ok p, c)
      → Moves api m idle (with_cache c m) p
  perform-Moves (calls k) m c p free e =
      let (r, f, g) = ends_in (Front.call api k m.cache) holds p c e in
      subst (Moves api m idle (with_cache c m)) g (call-Moves api k r m c free f)
  perform-Moves (subscripts k) m c p free e =
      let (r, f, g) = ends_in (Front.subscript api k m.cache) holds p c e in
      subst (Moves api m idle (with_cache c m)) g (subscript-Moves api k r m c free f)
  perform-Moves (purges k) m c p free e =
      let (u, f, g) = ends_in (Front.purge api k m.cache) (λ _. idle) p c e in
      subst (Moves api m idle (with_cache c m)) g (
        rw (ap (λ (z : Outcome (Unit {0}) × Cache K T W). with_cache z.1 m) f) at
          (purge-Moves api k m))
  perform-Moves (invalidates k) m c p free e =
      let (u, f, g) = ends_in (Front.invalidate api k m.cache) (λ _. idle) p c e in
      subst (Moves api m idle (with_cache c m)) g (invalidate-Moves api k m c f)
