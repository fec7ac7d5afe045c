-- ===== src/Cache/Threads/Atomic/Subscript.antt =====
-- `operator[]` of cache/cache.hpp, made of the steps of one thread.
use colony_fs.Base.{ℕ, ◌≡◌, ap, none, some, inl, inr, Option-cases, arith}
use colony_fs.Base.Key.{Key}
use colony_fs.Base.Map.{find, insert as map_insert}
use colony_fs.Base.Outcome.{Outcome, ok, undefined}
use colony_fs.Cache.Basic
use colony_fs.Cache.Basic.{Cache}
use colony_fs.Cache.Policy.{Policy}
use colony_fs.Cache.Front
use colony_fs.Cache.Front.{entry_key, new_object}
use colony_fs.Cache.Threads.{
  Phase, idle, marks, holds, Shared, with_cache, unlock, lock_new, Move, subscript, found, absent,
  created, marked,
}
use colony_fs.Cache.Threads.Solo.{Moves, done, ◌▸◌}
use colony_fs.Cache.Threads.Atomic.Ends.{unlocked}

module _ {K T W : Type 0} ⦃o : Key K⦄ (api : Policy K T W) where
  open api use {get_key, new_pointer, pre_read, on_flush}

  mark-marked :
      (q r : ℕ) (c c' : Cache K T W)
      → Front.mark api q c ≡ (ok r, c')
      → (v : T) × (c.cell q ≡ some v) × (Basic.set_dirty (get_key v) c ≡ (ok tt, c')) × (q ≡ r)
  unfolding Front.mark Front.load Basic.set_dirty
  mark-marked q r c c' e = elim (Option-cases (c.cell q)) [
    | inl gone ↦ let f : (undefined, c) ≡ (ok r, c') = rw (gone, Front.load) at e in cc
    | inr (v, there) ↦ elim (Option-cases (find (get_key v) c.whole)) [
      | inl gone ↦
          let f : (undefined, c) ≡ (ok r, c') =
            rw (there, gone, Front.load, Basic.set_dirty) at e in
          cc
      | inr (x, y) ↦
          let d : Cache K T W = record c { dirty = map_insert (get_key v) x c.dirty } in
          let f : (ok q, d) ≡ (ok r, c') = rw (there, y, Front.load, Basic.set_dirty) at e in
          let g : ok q ≡ ok r = ap (λ z. z.0) f in
          let h : q ≡ r = cc in
          (
            v,
            there,
            rw (y, Basic.set_dirty) (ap (λ (z : Outcome ℕ × Cache K T W). (ok tt, z.1)) f),
            h,
          )
    ]
  ]

  mark-Move :
      (k : K) (q r : ℕ) (m : Shared K T W) (c : Cache K T W)
      → Front.mark api q m.cache ≡ (ok r, c)
      → Move api m (marks k q) (unlock k (with_cache c m)) (holds r)
  mark-Move k q r m c e =
      let (v, a, b, same) = mark-marked q r m.cache c e in
      let move : Move api m (marks k q) (unlock k (with_cache c m)) (holds q) = marked v c a b in
      rw (ap {B = Phase K} holds same) at move

  pub subscript-Moves :
      (k : K) (q : ℕ) (m : Shared K T W) (c : Cache K T W)
      → find k m.mutexes ≡ none
      → Front.subscript api k m.cache ≡ (ok q, c)
      → Moves api m idle (with_cache c m) (holds q)
  unfolding Front.subscript new_object Basic.read
  subscript-Moves k q m c free e = elim (Option-cases (find (entry_key api k) m.cache.whole)) [
    | inr (x, there) ↦
        let f : Front.mark api x (lock_new api k m).cache ≡ (ok q, c) =
          rw (there, Basic.read) at e in
        unlocked api k m c (holds q) free
          (subscript k free ▸ found x there ▸ mark-Move k x q (lock_new api k m) c f ▸ done)
    | inl gone ↦
        let d = Basic.insert (entry_key api k) m.cache.next (lock_new api k m).cache in
        let f : Front.mark api m.cache.next d ≡ (ok q, c) = rw (gone, Basic.read) at e in
        unlocked api k m c (holds q) free (
          subscript k free
          ▸ absent gone
          ▸ created (new_pointer k) (ground arith)
          ▸ mark-Move k m.cache.next q (with_cache d (lock_new api k m)) c f
          ▸ done)
  ]
