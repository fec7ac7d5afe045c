-- ===== src/Cache/Threads.antt =====
-- cache/cache.hpp with several threads: the handlers of the file system and the tasks that flush.
-- `operator()` and `operator[]` hold the mutex of the caller's key, `purge(key)` and
-- `invalidate(key)` hold none. One call of basic_cache, one call of the policy, and one access
-- through a pointer is a step; the two calls on the whole cache are left out.
pub mod Invariant
pub mod Safety
pub mod Solo
pub mod Races
pub mod Atomic
use colony_fs.Base.{[], ℕ, ◌≡◌, Option, none, some, ite, ℕ_discrete}
use colony_fs.Base.Key.{Key}
use colony_fs.Base.Map.{Map, find, insert as map_insert, erase as map_erase}
use colony_fs.Base.Outcome.{Outcome, ok, raise, undefined, cache_miss_e, Exception}
use colony_fs.Cache.Heap.{put}
use colony_fs.Cache.Basic
use colony_fs.Cache.Basic.{Cache, empty}
use colony_fs.Cache.Policy.{Policy}
use colony_fs.Cache.Front.{entry_key, new_object}

-- Where a thread stands, with the key of its call and its pointer. `reads` to `inserts` are of
-- `operator()`, `takes` to `marks` of `operator[]`, `erased` of `purge`, and `flushes` and `clears`
-- of `invalidate`; a thread that `holds` a pointer got it from a call that has returned.
pub data Phase (K : Type 0) : Type 0 where
  idle broken : Phase K
  reads asks fills inserts takes creates marks flushes : K → ℕ → Phase K
  erased clears : K → Phase K
  holds : ℕ → Phase K

-- `mutexes` are the keys whose mutex of `mutex_map_` is held.
pub record Shared (K T W : Type 0) : Type 0 where
  pub cache : Cache K T W
  pub mutexes : Map K (Unit {0})

module _ {K T W : Type 0} ⦃o : Key K⦄ where
  abbrev pub with_cache : Cache K T W → Shared K T W → Shared K T W
  with_cache c m = record m { cache = c }

  -- The end of the scope of a scoped lock.
  abbrev pub unlock : K → Shared K T W → Shared K T W
  unlock k m = record m { mutexes = map_erase k m.mutexes }

  abbrev pub in_place : ℕ → T → W → Shared K T W → Shared K T W
  in_place r v w m = record m { cache = record m.cache { heap = put r v m.cache.heap; world = w } }

  abbrev pub elsewhere : W → Shared K T W → Shared K T W
  elsewhere w m = record m { cache = record m.cache { world = w } }

module _ {K T W : Type 0} ⦃o : Key K⦄ (api : Policy K T W) where
  open api use {get_key, new_pointer, pre_read, on_flush, on_erase}

  -- A scoped lock is taken, and the call's own object is made.
  abbrev pub lock_new : K → Shared K T W → Shared K T W
  lock_new k m = record {
    cache = (new_object api k m.cache).1;
    mutexes = map_insert k tt m.mutexes;
  }

  -- One step of one thread. (A call of the policy that does not return is none.)
  pub data Move (m : Shared K T W) : Phase K → Shared K T W → Phase K → Type 0 where
    call : (k : K) → find k m.mutexes ≡ none → Move m idle (lock_new k m) (reads k m.cache.next)
    hit :
        {k : K} {r : ℕ} (q : ℕ)
        → find (entry_key api k) m.cache.whole ≡ some q
        → Move m (reads k r) (unlock k m) (holds q)
    miss :
        {k : K} {r : ℕ}
        → find (entry_key api k) m.cache.whole ≡ none
        → Move m (reads k r) m (asks k r)
    answered :
        {k : K} {r : ℕ} (v v' : T) (w : W)
        → m.cache.cell r ≡ some v
        → pre_read v m.cache.world ≡ (ok v', w)
        → Move m (asks k r) (in_place r v' w m) (fills k r)
    refused :
        {k : K} {r : ℕ} (v : T) (w : W) (e : Exception)
        → m.cache.cell r ≡ some v
        → pre_read v m.cache.world ≡ (raise e, w)
        → Move m (asks k r) (unlock k (elsewhere w m)) idle
    cv :
        {k : K} {r : ℕ} (v : T)
        → m.cache.cell r ≡ some v
        → find (get_key v) m.cache.locked ≡ none
        → Move m
            (fills k r)
            (with_cache (record m.cache { locked = map_insert (get_key v) tt m.cache.locked }) m)
            (inserts k r)
    inserted :
        {k : K} {r : ℕ} (v : T)
        → m.cache.cell r ≡ some v
        → Move m
            (inserts k r)
            (unlock k (with_cache (Basic.insert (get_key v) r m.cache) m))
            (holds r)
    subscript :
        (k : K) → find k m.mutexes ≡ none → Move m idle (lock_new k m) (takes k m.cache.next)
    found :
        {k : K} {r : ℕ} (q : ℕ)
        → find (entry_key api k) m.cache.whole ≡ some q
        → Move m (takes k r) m (marks k q)
    absent :
        {k : K} {r : ℕ}
        → find (entry_key api k) m.cache.whole ≡ none
        → Move m (takes k r) m (creates k r)
    created :
        {k : K} {r : ℕ} (v : T)
        → m.cache.cell r ≡ some v
        → Move m (creates k r) (with_cache (Basic.insert (get_key v) r m.cache) m) (marks k r)
    marked :
        {k : K} {q : ℕ} (v : T) (c : Cache K T W)
        → m.cache.cell q ≡ some v
        → Basic.set_dirty (get_key v) m.cache ≡ (ok tt, c)
        → Move m (marks k q) (unlock k (with_cache c m)) (holds q)
    lost_entry :
        {k : K} {q : ℕ} (v : T) (c : Cache K T W)
        → m.cache.cell q ≡ some v
        → Basic.set_dirty (get_key v) m.cache ≡ (undefined, c)
        → Move m (marks k q) m broken
    lost_mark : {k : K} {q : ℕ} → m.cache.cell q ≡ none → Move m (marks k q) m broken
    purge :
        (k : K)
        → Move m idle
            (with_cache (Basic.erase (entry_key api k) (new_object api k m.cache).1) m)
            (erased k)
    purged :
        {k : K} → Move m (erased k) (elsewhere (on_erase (new_pointer k) m.cache.world).1 m) idle
    invalidate :
        (k : K) (q : ℕ)
        → (Basic.read_dirty (entry_key api k) m.cache).0 ≡ ok q
        → Move m idle (with_cache (new_object api k m.cache).1 m) (flushes k q)
    clean :
        (k : K)
        → (Basic.read_dirty (entry_key api k) m.cache).0 ≡ raise cache_miss_e
        → Move m idle (with_cache (new_object api k m.cache).1 m) idle
    flushed :
        {k : K} {q : ℕ} (v : T) (w : W)
        → m.cache.cell q ≡ some v
        → on_flush v m.cache.world ≡ (ok tt, w)
        → Move m (flushes k q) (elsewhere w m) (clears k)
    unflushed :
        {k : K} {q : ℕ} (v : T) (w : W) (e : Exception)
        → m.cache.cell q ≡ some v
        → on_flush v m.cache.world ≡ (raise e, w)
        → Move m (flushes k q) (elsewhere w m) idle
    lost_flush : {k : K} {q : ℕ} → m.cache.cell q ≡ none → Move m (flushes k q) m broken
    cleared : {k : K} → Move m (clears k) (with_cache (Basic.clear_dirty k m.cache) m) idle
    write :
        {q : ℕ} (v : T) (f : T → T)
        → m.cache.cell q ≡ some v
        → ((u : T) → get_key (f u) ≡ get_key u)
        → Move m (holds q) (in_place q (f v) m.cache.world m) (holds q)
    lost_write : {q : ℕ} → m.cache.cell q ≡ none → Move m (holds q) m broken
    drop : {q : ℕ} → Move m (holds q) m idle

  pub record System : Type 0 where
    pub shared : Shared K T W
    pub phase : ℕ → Phase K

  abbrev pub update : (ℕ → Phase K) → ℕ → Phase K → ℕ → Phase K
  update phase i p j = ite (ℕ_discrete i j) p (phase j)

  pub data Step (s : System) : System → Type 0 where
    turn :
        (i : ℕ) {m : Shared K T W} {p : Phase K}
        → Move s.shared (s.phase i) m p
        → Step s (record { shared = m; phase = update s.phase i p })

  pub data Reach (s : System) : System → Type 0 where
    here : Reach s s
    next : {t u : System} → Reach s t → Step t u → Reach s u

  -- A new cache, of which no thread has asked anything.
  abbrev pub start : W → System
  start w = record { shared = record { cache = empty w; mutexes = [] }; phase = λ i. idle }
