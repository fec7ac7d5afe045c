-- ===== src/Dht/Values/RoundTrip.antt =====
-- Values survive the way through the hash table's text.
use colony_fs.Base.{String, ◌≡◌, refl, sym, ap, ◌∙◌}
use colony_fs.Base.Outcome.{ok}
use colony_fs.Dht.Values.{
  Archive, Instruction, Derived, Value, get_key, get_value, set_key, set_value, reconstruct,
  new_pointer, get_signature,
}

module _ {T : Type 0} (derived : Derived T) (instructions : Archive Instruction) where
  -- The key and the text of a value give the value back.
  pub reconstruct-get :
      (v : Value T)
      → reconstruct derived instructions
          (get_key derived instructions v)
          (get_value derived instructions v)
        ≡ ok v
  unfolding reconstruct get_key get_value set_key set_value
  reconstruct-get v =
      rw (instructions.read-write v.instruction) (rw (derived.archive.read-write v.mapped) refl)

  -- The text of a value fills another value of the same instruction in.
  pub set_value-get_value :
      (v u : Value T)
      → u.instruction ≡ v.instruction
      → set_value derived instructions (get_value derived instructions v) u ≡ ok v
  unfolding set_value get_value
  set_value-get_value v u e = rw (derived.archive.read-write v.mapped) (rw e refl)

  instruction_inj : (i j : Instruction) → instructions.write i ≡ instructions.write j → i ≡ j
  instruction_inj i j e =
      let p : ok i ≡ ok j =
        sym (instructions.read-write i) ∙ ap instructions.read e ∙ instructions.read-write j in
      cc

  -- New values of different arguments never have one key, and the key is the signature of the
  -- argument.
  pub get_key-new_pointer :
      (a b : String)
      → (get_key derived instructions (new_pointer derived instructions a)
          ≡ get_signature derived instructions a)
        × (get_key derived instructions (new_pointer derived instructions a)
              ≡ get_key derived instructions (new_pointer derived instructions b)
            → a ≡ b)
  unfolding get_key new_pointer get_signature
  get_key-new_pointer a b =
      (refl, λ e. ap (λ (i : Instruction). i.argument) (instruction_inj _ _ e))
