-- ===== src/Cache/Threads/Atomic/Ends.antt =====
-- Steps of cache/cache.hpp that end a call.
use colony_fs.Base.{ℕ, ◌≡◌, ap, none}
use colony_fs.Base.Key.{Key}
use colony_fs.Base.Map.{find, erase-insert}
use colony_fs.Base.Outcome.{Outcome, ok}
use colony_fs.Cache.Basic.{Cache}
use colony_fs.Cache.Policy.{Policy}
use colony_fs.Cache.Threads.{Phase, idle, holds, Shared, with_cache, unlock, lock_new}
use colony_fs.Cache.Threads.Solo.{Moves}

module _ {K T W : Type 0} ⦃o : Key K⦄ (api : Policy K T W) where
  open api use {get_key, new_pointer, pre_read, on_flush}

  -- A call whose mutex is free gives it back.
  pub unlocked :
      (k : K) (m : Shared K T W) (c : Cache K T W) (p : Phase K)
      → find k m.mutexes ≡ none
      → Moves api m idle (unlock k (with_cache c (lock_new api k m))) p
      → Moves api m idle (with_cache c m) p
  unlocked k m c p free moves = rw (erase-insert k tt m.mutexes free) at moves

  pub ended :
      (f : Cache K T W → Shared K T W) (m : Shared K T W) (p : Phase K) (r q : ℕ)
      (d c : Cache K T W)
      → ◌≡◌ {A = Outcome ℕ × Cache K T W} (ok r, d) (ok q, c)
      → Moves api m p (f d) (holds r)
      → Moves api m p (f c) (holds q)
  ended f m p r q d c e moves =
      let g : ok r ≡ ok q = ap (λ z. z.0) e in
      let h : r ≡ q = cc in let i : d ≡ c = ap (λ z. z.1) e in rw (h, i) at moves
