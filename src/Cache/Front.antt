-- ===== src/Cache/Front.antt =====
-- cache/cache.hpp: the operations that the file system calls. The scoped lock on a key's mutex is
-- released when the call returns, so it has no effect on calls that run one after another.
use colony_fs.Base.{ℕ, none, some, [], ◌∷◌}
use colony_fs.Base.Key.{Key}
use colony_fs.Base.Map.{Map, find, insert as map_insert}
use colony_fs.Base.Outcome.{
  Outcome, ok, raise, blocked, undefined, cache_miss_e, Action, ◌>>=◌, ◌>>◌, pure, gets, modify,
}
use colony_fs.Cache.Heap.{allocate, put}
use colony_fs.Cache.Basic
use colony_fs.Cache.Basic.{Cache}
use colony_fs.Cache.Policy.{Policy}

-- `try { m } catch (cache_miss_e&) { handler }`
abbrev pub on_miss : {S A : Type 0} → Outcome A → Action S A → Action S A
on_miss (raise cache_miss_e) handler s = handler s
on_miss r handler s = (r, s)

abbrev pub catch_miss : {S A : Type 0} → Action S A → Action S A → Action S A
catch_miss m handler s = let (r, s') = m s in on_miss r handler s'

module _ {K T W : Type 0} where
  -- `*p` and `*p = v` through a pointer that the caller holds.
  unfoldable pub load : ℕ → Action (Cache K T W) T
  load r c = elim (c.cell r) [ none ↦ (undefined, c) | some v ↦ (ok v, c) ]

  unfoldable pub store : ℕ → T → Action (Cache K T W) (Unit {0})
  unfolding put
  store r v c = elim (c.cell r) [
    | none ↦ (undefined, c)
    | some _ ↦ (ok tt, record c { heap = put r v c.heap })
  ]

  -- A change of the object in place.
  unfoldable pub edit : ℕ → (T → T) → Action (Cache K T W) (Unit {0})
  unfolding load store
  edit r f = do v ← load r; store r (f v)

  -- A callback of the policy.
  unfoldable pub in_world : {A : Type 0} → Action W A → Action (Cache K T W) A
  in_world act c = let (r, w) = act c.world in (r, record c { world = w })

module _ {K T W : Type 0} ⦃o : Key K⦄ (api : Policy K T W) where
  open api use {new_pointer, get_key, pre_read, on_flush, on_erase, on_done}

  -- The key under which a value is kept: that of a new value for the caller's key.
  abbrev pub entry_key : K → K
  entry_key key = get_key (new_pointer key)

  -- `ValueFactory<T>::NewPointer(key, deleter)`. The deleter does nothing, so an object that does
  -- not get into the cache is never deleted.
  unfoldable pub new_object : K → Action (Cache K T W) ℕ
  unfolding allocate
  new_object key c = (ok c.next, record c { heap = allocate (new_pointer key) c.heap })

  -- `CV::Instance(value).lock()`: a spin lock, which the program never releases.
  unfoldable pub lock : K → Action (Cache K T W) (Unit {0})
  lock key c = elim (find key c.locked) [
    | some _ ↦ (blocked, c)
    | none ↦ (ok tt, record c { locked = map_insert key tt c.locked })
  ]

  -- The end of a miss: the filled object becomes the entry, once its mutex is taken.
  unfoldable pub enter : ℕ → T → Action (Cache K T W) ℕ
  unfolding store lock Basic.insert
  enter r v = do store r v; lock (get_key v); modify (Basic.insert (get_key v) r); pure r

  -- The handler of a miss in `operator()`: first read, then insert.
  unfoldable pub fetch : ℕ → Action (Cache K T W) ℕ
  unfolding load in_world enter
  fetch r = do v ← load r; v' ← in_world (pre_read v); enter r v'

  -- `operator()`
  unfoldable pub call : K → Action (Cache K T W) ℕ
  unfolding new_object Basic.read fetch
  call key = do r ← new_object key; catch_miss (Basic.read (entry_key key)) (fetch r)

  -- The end of `operator[]`: the caller's entry becomes dirty.
  unfoldable pub mark : ℕ → Action (Cache K T W) ℕ
  unfolding load Basic.set_dirty
  mark q = do v ← load q; Basic.set_dirty (get_key v); pure q

  -- `operator[]`
  unfoldable pub subscript : K → Action (Cache K T W) ℕ
  unfolding new_object Basic.read Basic.insert mark
  subscript key = do
    r ← new_object key
    q ← catch_miss (Basic.read (entry_key key)) (do modify (Basic.insert (entry_key key) r); pure r)
    mark q

  unfoldable pub purge : K → Action (Cache K T W) (Unit {0})
  unfolding new_object Basic.erase in_world
  purge key = do
    new_object key
    modify (Basic.erase (entry_key key))
    in_world (on_erase (new_pointer key))

  -- `purge()`
  unfoldable pub purge_all : Action (Cache K T W) (Unit {0})
  unfolding Basic.clear
  purge_all = modify Basic.clear

  -- The entry leaves `dirty_` under the caller's key.
  unfoldable pub flush_entry : K → Action (Cache K T W) (Unit {0})
  unfolding Basic.read_dirty load in_world Basic.clear_dirty
  flush_entry key = do
    q ← Basic.read_dirty (entry_key key)
    v ← load q
    in_world (on_flush v)
    modify (Basic.clear_dirty key)

  unfoldable pub invalidate : K → Action (Cache K T W) (Unit {0})
  unfolding new_object flush_entry
  invalidate key = do new_object key; catch_miss (flush_entry key) (pure tt)

  -- The loop of `invalidate()`, with the assertion that each weak pointer is still good.
  unfoldable pub flush_all : Map K ℕ → Action (Cache K T W) (Unit {0})
  unfolding load in_world
  flush_all [] = pure tt
  flush_all ((k, q) ∷ m) = do v ← load q; in_world (on_flush v); flush_all m

  -- `invalidate()`
  unfoldable pub invalidate_all : Action (Cache K T W) (Unit {0})
  unfolding flush_all in_world
  invalidate_all = do
    d ← gets (λ c. c.dirty)
    flush_all d
    modify λ c. record c { dirty = [] }
    in_world on_done
