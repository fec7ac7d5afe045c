-- ===== src/Cache/Basic.antt =====
-- cache/basic_cache.hpp: the entries of a cache (`whole`) and those of them that were written
-- (`dirty`). `whole` owns its objects: an object goes when its entry does.
use colony_fs.Base.{ℕ, Option, none, some, [], ◌∷◌}
use colony_fs.Base.Key.{Key}
use colony_fs.Base.Map.{Map, find, insert as map_insert, erase as map_erase}
use colony_fs.Base.Outcome.{Outcome, ok, raise, undefined, cache_miss_e, Action}
use colony_fs.Cache.Heap.{Heap, release}

-- `locked` are the keys whose mutex `CV::Instance` is held, `world` is what the policy acts on.
pub record Cache (K T W : Type 0) : Type 0 where
  pub heap : Heap T
  pub open heap use *
  pub whole : Map K ℕ
  pub dirty : Map K ℕ
  pub locked : Map K (Unit {0})
  pub world : W

abbrev pub or_miss : Option ℕ → Outcome ℕ
or_miss none = raise cache_miss_e
or_miss (some r) = ok r

abbrev pub or_null : Option ℕ → Outcome ℕ
or_null none = undefined
or_null (some r) = ok r

-- Every object of a map is deleted.
abbrev pub release_all : {K T : Type 0} → Map K ℕ → Heap T → Heap T
release_all [] h = h
release_all ((k, r) ∷ m) h = release_all m (release (some r) h)

module _ {K T W : Type 0} ⦃o : Key K⦄ where
  -- The constructor.
  unfoldable pub empty : W → Cache K T W
  empty w = record {
    heap = record { next = 0; cell = λ r. none };
    whole = [];
    dirty = [];
    locked = [];
    world = w;
  }

  -- `whole_[key] = shared_ptr<T>(value.get())`: the entry owns the object, and what it owned
  -- before is deleted.
  unfoldable pub insert : K → ℕ → Cache K T W → Cache K T W
  insert key r c = record c {
    heap = release (find key c.whole) c.heap;
    whole = map_insert key r c.whole;
  }

  -- `dirty_[key] = whole_[key]`. (Without an entry the source stores a null pointer.)
  unfoldable pub set_dirty : K → Action (Cache K T W) (Unit {0})
  set_dirty key c = elim (find key c.whole) [
    | none ↦ (undefined, c)
    | some r ↦ (ok tt, record c { dirty = map_insert key r c.dirty })
  ]

  -- Redirects the caller's pointer to the cached object, or throws `cache_miss_e`.
  unfoldable pub read : K → Action (Cache K T W) ℕ
  read key c = (or_miss (find key c.whole), c)

  unfoldable pub read_dirty : K → Action (Cache K T W) ℕ
  unfolding read
  read_dirty key c = elim (find key c.dirty) [
    | none ↦ (raise cache_miss_e, c)
    | some _ ↦ read key c
  ]

  unfoldable pub erase : K → Cache K T W → Cache K T W
  erase key c = record c {
    heap = release (find key c.whole) c.heap;
    whole = map_erase key c.whole;
    dirty = map_erase key c.dirty;
  }

  -- The overload `clear(value)`.
  unfoldable pub clear_dirty : K → Cache K T W → Cache K T W
  clear_dirty key c = record c { dirty = map_erase key c.dirty }

  unfoldable pub clear : Cache K T W → Cache K T W
  clear c = record c { heap = release_all c.whole c.heap; whole = []; dirty = [] }
