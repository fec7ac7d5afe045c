-- ===== src/Dht/Policies/Metadata.antt =====
-- Metadata that a cache flushes to the hash table and reads again.
use colony_fs.Base.{
  ℕ, suc, String, true, none, some, ◌≡◌, refl, ◌∙◌, ap, arith, Option-cases, inl, inr,
}
use colony_fs.Base.Outcome.{ok, raise, archive_exception, lookup_e}
use colony_fs.Dht.Values.{Archive, Instruction, Derived, Value, get_key, set_value}
use colony_fs.Dht.Harmony.{Server, put, get_pair, key_hash}
use colony_fs.Dht.Harmony.Table.{Table, get_lem, put_lem, stored}
use colony_fs.Dht.Policies.{as_lookup, pre_read, on_erase}

module _ {W T : Type 0} (server : Server W) (table : Table server)
    (instructions : Archive Instruction) (derived : Derived T) where
  -- What a value that is read is filled with, or how the read fails.
  pre_read_lem :
      (n : ℕ) (u : Value T) (w : W)
      → (pre_read server (suc n) instructions derived u w).0
        ≡ (elim (stored server table (get_key derived instructions u) w) [
          | none ↦ raise lookup_e
          | some text ↦ as_lookup (set_value derived instructions text u)
        ])
  unfolding pre_read get_pair
  pre_read_lem n u w =
      let (w', e, f) = get_lem server table n (get_key derived instructions u) w in
      rw e (elim (Option-cases (stored server table (get_key derived instructions u) w)) [
        | inl missing ↦ rw missing refl
        | inr (text, there) ↦ rw there refl
      ])

  -- A read after anything was put under the value's key.
  pre_read-put :
      (m : ℕ) (text : String) (u : Value T) (w : W)
      → stored server table (get_key derived instructions u) w ≡ some text
      → (pre_read server (suc m) instructions derived u w).0
        ≡ as_lookup (set_value derived instructions text u)
  pre_read-put m text u w there = rw (pre_read_lem m u w, there) refl

  pub put_there :
      (n : ℕ) (key text : String) (w : W)
      → (w' : W) × (put server (suc n) key text w ≡ (ok true, w'))
        × (stored server table key w' ≡ some text)
  put_there n key text w =
      let (w', e, f) = put_lem server table n key text w in
      (w', e, ground (arith, f (key_hash server key)))

  -- A read of a value that was erased fails with the archive's exception, not with `lookup_e`: the
  -- erased value is empty text, which the archive refuses.
  pub pre_read-on_erase :
      (n m : ℕ) (v u : Value T) (w : W)
      → u.instruction ≡ v.instruction
      → derived.archive.read "" ≡ raise archive_exception
      → ((on_erase server (suc n) instructions derived v w).0 ≡ ok tt)
        × ((pre_read server
              (suc m)
              instructions
              derived
              u
              (on_erase server (suc n) instructions derived v w).1).0
            ≡ raise archive_exception)
  unfolding on_erase set_value get_key
  pre_read-on_erase n m v u w same refused =
      let (w', e, there) = put_there n (get_key derived instructions v) "" w in
      let key : get_key derived instructions u ≡ get_key derived instructions v =
        ap instructions.write same in
      rw e (refl, pre_read-put m "" u w' (rw key there) ∙ rw refused refl)
