-- ===== src/Cache/View/Call.antt =====
-- `operator()` of cache/cache.hpp on the map that a cache is.
use colony_fs.Base.{
  ℕ, ◌≡◌, refl, sym, Option, none, some, arith, ite, inl, inr, Option-cases, ◌∙◌, ap,
}
use mathlib.Core.Logic.{if_pos, if_neg}
use colony_fs.Base.Key.{Key}
use colony_fs.Base.Map.{Map, find, insert as map_insert, find-erase, find-insert_self}
use colony_fs.Base.Outcome.{Outcome, ok, raise, blocked, undefined, and_then, continue}
use colony_fs.Cache.Heap.{allocate, put}
use colony_fs.Cache.Basic
use colony_fs.Cache.Basic.{Cache, or_miss}
use colony_fs.Cache.Policy.{Policy}
use colony_fs.Cache.Front.{entry_key, new_object, load, enter, fetch, purge, call}
use colony_fs.Cache.Sound.{IsSound}
use colony_fs.Cache.Sound.Misses.{KeepsKey, enter-ok, enter-blocked}
use colony_fs.Cache.View.{deref, view, view-new_object, view-insert}

module _ {K T W : Type 0} ⦃o : Key K⦄ (api : Policy K T W) where
  open api use {new_pointer, get_key, pre_read}

  -- A hit calls no callback: the pointer is the entry's, and no entry changes.
  pub call-hit :
      (key j : K) (q : ℕ) (c : Cache K T W)
      → IsSound api c
      → find (entry_key api key) c.whole ≡ some q
      → ((call api key c).0 ≡ ok q)
        × ((call api key c).1.world ≡ c.world)
        × (view (call api key c).1 j ≡ view c j)
  unfolding call new_object
  call-hit key j q c s hit = rw (hit, or_miss) (refl, refl, view-new_object api key j c s)

  pub call-miss :
      (key : K) (c : Cache K T W)
      → find (entry_key api key) c.whole ≡ none
      → let (x, w) = pre_read (new_pointer key) c.world in
        call api key c
        ≡ continue x (enter api c.next) (record (new_object api key c).1 { world = w })
  unfolding call new_object fetch
  call-miss key c miss = rw (miss, or_miss) (rw (at_next, load))
    where
      at_next : (allocate (new_pointer key) c.heap).cell c.next ≡ some (new_pointer key)
      at_next = ground arith

  abbrev pub value_of : Outcome T → Option T
  value_of (ok v) = some v
  value_of _ = none

  -- The state in which the handler of a miss runs on.
  abbrev pub looked_up : K → W → Cache K T W → Cache K T W
  looked_up key w c = record (new_object api key c).1 { world = w }

  -- The object that is not in the cache yet can be filled.
  view-filled :
      (key j : K) (v : T) (w : W) (l : Map K (Unit {0})) (c : Cache K T W)
      → IsSound api c
      → let d = looked_up key w c in
        view (record d { heap = put c.next v d.heap; locked = l }) j ≡ view c j
  unfolding new_object put
  view-filled key j v w l c s = elim (Option-cases (find j c.whole)) [
    | inl e ↦ rw e
    | inr (q, e) ↦ let (u, f, g) = s.live j q e in rw (e, deref) (ground (arith, s.fresh q u))
  ]

  absent-ite :
      (k j : K) (c : Cache K T W)
      → find k c.whole ≡ none
      → view c j ≡ ite (o.eq k j) none (view c j)
  absent-ite k j c miss = elim (o.eq k j) [
    | yes same ↦ rw (if_pos _ same) (rw (← same, miss))
    | no other ↦ rw (if_neg _ other)
  ]

  after_miss :
      (key j : K) (x : Outcome T) (w : W) (c : Cache K T W)
      → IsSound api c
      → find (entry_key api key) c.whole ≡ none
      → find (entry_key api key) c.locked ≡ none
      → ((v : T) → x ≡ ok v → get_key v ≡ entry_key api key)
      → let (r, d) = continue x (enter api c.next) (looked_up key w c) in
        (r ≡ and_then x (λ _. ok c.next))
        × (d.world ≡ w)
        × (view d j ≡ ite (o.eq (entry_key api key) j) (value_of x) (view c j))
  unfolding new_object put Basic.insert
  after_miss key j (ok v) w c s miss free keeps =
      let k = entry_key api key in
      let g : get_key v ≡ k = keeps v refl in
      let c' = looked_up key w c in
      let l = map_insert (get_key v) tt c.locked in
      rw (enter-ok api c.next (new_pointer key) v c' (ground arith) (rw g free)) (
        refl,
        refl,
        view-insert api (get_key v) j c.next v
              (record c' { heap = put c.next v c'.heap; locked = l }) (rw g miss) (ground arith)
            ∙ rw (view-filled key j v w l c s, g),
      )
  after_miss key j (raise e) w c s miss free keeps =
      (refl, refl, view-new_object api key j c s ∙ absent-ite (entry_key api key) j c miss)
  after_miss key j blocked w c s miss free keeps =
      (refl, refl, view-new_object api key j c s ∙ absent-ite (entry_key api key) j c miss)
  after_miss key j undefined w c s miss free keeps =
      (refl, refl, view-new_object api key j c s ∙ absent-ite (entry_key api key) j c miss)

  -- The first miss of a key asks the policy once, for a new value: what it fills in becomes the
  -- entry, and an exception or a wait of the policy goes to the caller. No other entry changes.
  pub call-miss_first :
      (key j : K) (c : Cache K T W)
      → IsSound api c
      → KeepsKey api
      → find (entry_key api key) c.whole ≡ none
      → find (entry_key api key) c.locked ≡ none
      → let (x, w) = pre_read (new_pointer key) c.world in
        let (r, d) = call api key c in
        (r ≡ and_then x (λ _. ok c.next))
        × (d.world ≡ w)
        × (view d j ≡ ite (o.eq (entry_key api key) j) (value_of x) (view c j))
  call-miss_first key j c s keeps miss free =
      let (x, w) = pre_read (new_pointer key) c.world in
      rw (call-miss key c miss)
        (after_miss key j x w c s miss free (λ v h. keeps (new_pointer key) v c.world h))

  -- After a miss whose mutex was never released, the next miss of the key waits forever, provided
  -- that the policy would find a value.
  pub call-miss_again :
      (key : K) (v : T) (u : Unit {0}) (c : Cache K T W)
      → KeepsKey api
      → find (entry_key api key) c.whole ≡ none
      → find (entry_key api key) c.locked ≡ some u
      → (pre_read (new_pointer key) c.world).0 ≡ ok v
      → (call api key c).0 ≡ blocked
  unfolding new_object
  call-miss_again key v u c keeps miss held found =
      let (x, w) = pre_read (new_pointer key) c.world in
      let g : get_key v ≡ entry_key api key = keeps (new_pointer key) v c.world found in
      rw (
        call-miss key c miss,
        found,
        enter-blocked api c.next (new_pointer key) v u (looked_up key w c) (ground arith)
            (rw g held),
      )

  -- Whoever gets a value on a miss leaves the key's mutex locked.
  locked_after :
      (key : K) (x : Outcome T) (w : W) (q : ℕ) (c d : Cache K T W)
      → ((v : T) → x ≡ ok v → get_key v ≡ entry_key api key)
      → continue x (enter api c.next) (looked_up key w c) ≡ (ok q, d)
      → find (entry_key api key) d.locked ≡ some tt
  unfolding new_object Basic.insert
  locked_after key (ok v) w q c d keeps h =
      let k = entry_key api key in
      let g : get_key v ≡ k = keeps v refl in
      let c' = looked_up key w c in
      elim (Option-cases (find (get_key v) c.locked)) [
        | inl free ↦
            let e = enter-ok api c.next (new_pointer key) v c' (ground arith) free in
            rw (← ap (λ (p : Outcome ℕ × Cache K T W). p.1.locked) (sym e ∙ h), g)
              (find-insert_self k tt c.locked)
        | inr (u, held) ↦
            let e = enter-blocked api c.next (new_pointer key) v u c' (ground arith) held in
            let p : blocked ≡ ok q = ap (λ (p : Outcome ℕ × Cache K T W). p.0) (sym e ∙ h) in cc
      ]
  locked_after key (raise e) w q c d keeps h =
      let p : raise e ≡ ok q = ap (λ (p : Outcome ℕ × Cache K T W). p.0) h in cc
  locked_after key blocked w q c d keeps h =
      let p : blocked ≡ ok q = ap (λ (p : Outcome ℕ × Cache K T W). p.0) h in cc
  locked_after key undefined w q c d keeps h =
      let p : undefined ≡ ok q = ap (λ (p : Outcome ℕ × Cache K T W). p.0) h in cc

  -- A value that was read on a miss, purged, and read again: the second read never returns, if the
  -- policy still has a value for the key.
  pub call-purge-call :
      (key : K) (q : ℕ) (v : T) (c d : Cache K T W)
      → IsSound api c
      → KeepsKey api
      → find (entry_key api key) c.whole ≡ none
      → call api key c ≡ (ok q, d)
      → (pre_read (new_pointer key) (purge api key d).1.world).0 ≡ ok v
      → (call api key (purge api key d).1).0 ≡ blocked
  unfolding purge new_object
  call-purge-call key q v c d s keeps miss first found =
      let k = entry_key api key in
      let (x, w) = pre_read (new_pointer key) c.world in
      let held : find k d.locked ≡ some tt =
        locked_after key x w q c d (λ u h. keeps (new_pointer key) u c.world h)
          (sym (call-miss key c miss) ∙ first) in
      call-miss_again key v tt (purge api key d).1 keeps (ground (arith, find-erase k k d.whole))
        held found
