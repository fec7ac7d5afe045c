-- ===== src/Cache/Sound/History.antt =====
-- Any history of calls of a cache and of writes through the pointers that it gave out.
use colony_fs.Base.{ℕ, ◌≡◌, List, [], ◌∷◌}
use colony_fs.Base.Key.{Key}
use colony_fs.Base.Map.{find}
use colony_fs.Cache.Basic.{Cache, empty}
use colony_fs.Cache.Policy.{Policy}
use colony_fs.Cache.Front.{call, subscript, purge, purge_all, invalidate, invalidate_all, edit}
use colony_fs.Cache.Sound.{IsSound}
use colony_fs.Cache.Sound.Operations.{
  call-IsSound, subscript-IsSound, purge-IsSound, purge_all-IsSound, invalidate-IsSound,
  invalidate_all-IsSound, edit-IsSound,
}
use colony_fs.Cache.Sound.Misses.{KeepsKey}

module _ {K T W : Type 0} ⦃o : Key K⦄ (api : Policy K T W) where
  -- `writes` is a client's change of an object in place, which keeps the object's key.
  pub data Op : Type 0 where
    calls subscripts purges invalidates : K → Op
    purges_all invalidates_all : Op
    writes : (r : ℕ) (f : T → T) → ((v : T) → api.get_key (f v) ≡ api.get_key v) → Op

  -- The cache after a call, however the call ended.
  abbrev pub perform : Op → Cache K T W → Cache K T W
  perform (calls key) c = (call api key c).1
  perform (subscripts key) c = (subscript api key c).1
  perform (purges key) c = (purge api key c).1
  perform (invalidates key) c = (invalidate api key c).1
  perform purges_all c = (purge_all api c).1
  perform invalidates_all c = (invalidate_all api c).1
  perform (writes r f keeps) c = (edit r f c).1

  abbrev pub run : List Op → Cache K T W → Cache K T W
  run [] c = c
  run (p ∷ ps) c = run ps (perform p c)

  perform-IsSound :
      (p : Op) (c : Cache K T W) → KeepsKey api → IsSound api c → IsSound api (perform p c)
  perform-IsSound (calls key) c k s = call-IsSound api key c k s
  perform-IsSound (subscripts key) c k s = subscript-IsSound api key c s
  perform-IsSound (purges key) c k s = purge-IsSound api key c s
  perform-IsSound (invalidates key) c k s = invalidate-IsSound api key c s
  perform-IsSound purges_all c k s = purge_all-IsSound api c s
  perform-IsSound invalidates_all c k s = invalidate_all-IsSound api c s
  perform-IsSound (writes r f keeps) c k s = edit-IsSound api r f c keeps s

  run_from-IsSound :
      (ps : List Op) (c : Cache K T W) → KeepsKey api → IsSound api c → IsSound api (run ps c)
  run_from-IsSound [] c k s = s
  run_from-IsSound (p ∷ ps) c k s = run_from-IsSound ps (perform p c) k (perform-IsSound p c k s)

  pub empty-IsSound : (w : W) → IsSound api (empty w)
  unfolding empty find
  empty-IsSound w = record {
    live = λ k q h. cc;
    fresh = λ q v e. cc;
    within = λ k q h. cc;
    distinct = tt;
  }

  -- After any history of a new cache, whose callback for a miss leaves a value's key alone, each
  -- entry denotes a live object with the entry's key, and each dirty entry is an entry.
  pub run-IsSound : (ps : List Op) (w : W) → KeepsKey api → IsSound api (run ps (empty w))
  run-IsSound ps w k = run_from-IsSound ps (empty w) k (empty-IsSound w)
