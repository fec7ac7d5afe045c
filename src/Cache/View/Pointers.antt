-- ===== src/Cache/View/Pointers.antt =====
-- The pointers that a client of cache/cache.hpp holds: which object an entry has.
use colony_fs.Base.{ℕ, none, some, ◌≡◌, ◌≢◌, refl, arith, Option-cases, inl, inr}
use colony_fs.Base.Key.{Key, string_key}
use colony_fs.Base.Map.{find, find-insert, find-erase}
use colony_fs.Cache.Heap.{free, release}
use colony_fs.Cache.Basic
use colony_fs.Cache.Basic.{Cache}
use colony_fs.Cache.Policy.{Policy}
use colony_fs.Cache.Front.{entry_key, new_object, subscript, edit, load, store, purge}
use colony_fs.Cache.Sound.{IsSound}
use colony_fs.Cache.View.Subscript.{subscript_lem, prepared}

module _ {K T W : Type 0} ⦃o : Key K⦄ (api : Policy K T W) where
  -- An entry keeps its object while another path is entered.
  pub subscript-pointer :
      (key k : K) (q : ℕ) (c : Cache K T W)
      → IsSound api c
      → find k c.whole ≡ some q
      → find k (subscript api key c).1.whole ≡ some q
  unfolding new_object Basic.insert
  subscript-pointer key k q c s there =
      rw (subscript_lem api key c s) (elim (Option-cases (find (entry_key api key) c.whole)) [
        | inl miss ↦
            rw (miss, prepared) (ground (arith, find-insert k (entry_key api key) c.next c.whole))
        | inr (r, hit) ↦ rw (hit, prepared) there
      ])

  pub edit-pointer : (r : ℕ) (f : T → T) (c : Cache K T W) → (edit r f c).1.whole ≡ c.whole
  unfolding edit
  edit-pointer r f c = elim (Option-cases (c.cell r)) [
    | inl gone ↦ rw (gone, load) refl
    | inr (v, there) ↦ rw (there, load, there, store) refl
  ]

  -- The object of a purged entry is deleted.
  pub purge-freed :
      (key : K) (q : ℕ) (c : Cache K T W)
      → find (entry_key api key) c.whole ≡ some q
      → (purge api key c).1.cell q ≡ none
  unfolding purge new_object Basic.erase free
  purge-freed key q c there = rw (there, release) (ground arith)

  -- Nor does an entry lose its object while another is purged.
  pub purge-pointer :
      (key k : K) (q : ℕ) (c : Cache K T W)
      → entry_key api key ≢ k
      → find k c.whole ≡ some q
      → find k (purge api key c).1.whole ≡ some q
  unfolding purge new_object Basic.erase
  purge-pointer key k q c apart there = ground (arith, find-erase k (entry_key api key) c.whole)
