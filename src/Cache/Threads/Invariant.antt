-- ===== src/Cache/Threads/Invariant.antt =====
-- What a thread in a call of cache/cache.hpp knows of the shared cache, and which moves of the
-- others leave it so.
pub mod Objects
pub mod Others
pub mod Mover
pub mod After
use colony_fs.Base.{ℕ, ◌≡◌, ◌≢◌, Option, none, some}
use colony_fs.Base.Key.{Key}
use colony_fs.Base.Map.{find}
use colony_fs.Cache.Policy.{Policy}
use colony_fs.Cache.Front.{entry_key}
use colony_fs.Cache.Sound.{IsSound}
use colony_fs.Cache.Threads.{
  Phase, idle, broken, reads, asks, fills, inserts, takes, creates, marks, flushes, erased, clears,
  holds, Shared, System,
}

module _ {K : Type 0} where
  -- The key whose mutex the thread holds.
  abbrev pub inside : Phase K → Option K
  inside (reads k r) = some k
  inside (asks k r) = some k
  inside (fills k r) = some k
  inside (inserts k r) = some k
  inside (takes k r) = some k
  inside (creates k r) = some k
  inside (marks k q) = some k
  inside _ = none

  -- The thread's object that is no entry yet.
  abbrev pub object : Phase K → Option ℕ
  object (reads k r) = some r
  object (asks k r) = some r
  object (fills k r) = some r
  object (inserts k r) = some r
  object (takes k r) = some r
  object (creates k r) = some r
  object _ = none

  -- The key that the thread has seen to have no entry.
  abbrev pub missing : Phase K → Option K
  missing (asks k r) = some k
  missing (fills k r) = some k
  missing (inserts k r) = some k
  missing (creates k r) = some k
  missing _ = none

  pub record Apart (p q : Phase K) : Type 0 where
    pub keys : (k : K) → inside p ≡ some k → inside q ≢ some k
    pub objects : (r : ℕ) → object p ≡ some r → object q ≢ some r

module _ {K T W : Type 0} ⦃o : Key K⦄ (api : Policy K T W) where
  abbrev pub Locks : Shared K T W → K → Type 0
  Locks m k = find k m.mutexes ≡ some tt

  abbrev pub Absent : Shared K T W → K → Type 0
  Absent m k = find (entry_key api k) m.cache.whole ≡ none

  -- A new object of the call's key, which no entry denotes.
  pub record Own (m : Shared K T W) (k : K) (r : ℕ) : Type 0 where
    pub value : T
    pub live : m.cache.cell r ≡ some value
    pub keyed : api.get_key value ≡ entry_key api k
    pub unshared : (j : K) → find j m.cache.whole ≢ some r

  -- What holds of the shared cache for as long as the thread stands where it stands.
  pub record Good (m : Shared K T W) (p : Phase K) : Type 0 where
    pub locks : (k : K) → inside p ≡ some k → Locks m k
    pub own : (k : K) (r : ℕ) → inside p ≡ some k → object p ≡ some r → Own m k r
    pub absent : (k : K) → missing p ≡ some k → Absent m k

  pub record Inv (s : System api) : Type 0 where
    pub sound : IsSound api s.shared.cache
    pub good : (i : ℕ) → Good s.shared (s.phase i)
    pub apart : (i j : ℕ) → i ≢ j → Apart (s.phase i) (s.phase j)
