-- ===== src/Dht/Harmony/Untouched.antt =====
-- What the server of the hash table does not touch, the calls of its client do not touch either.
use colony_fs.Base.{ℕ, zero, suc, Option, none, some}
use colony_fs.Base.Keeps.{Keeps, pure-Keeps, fail-Keeps, if-Keeps, bind-Keeps}
use colony_fs.Base.Outcome.{raise, Action, dht_error, key_missing_error}
use colony_fs.Dht.Values.{Archive, Instruction, Derived, Value, set_value, get_key, get_value}
use colony_fs.Dht.Harmony.{
  Server, Request, Response, harmony_read, harmony_write, generate_op, answered, call_until, check,
  value_member, put, get, get_pair, set_pair, nonzero,
}

module _ {W : Type 0} (P : W → Type 0) (server : Server W)
    (keeps : (request : Request) (w : W) → P w → P (server.call request w).1) where
  answered-keeps :
      (r : Option Response) (again : Action W Response) (w : W)
      → Keeps P again
      → P w
      → P (answered server r again w).1
  answered-keeps none again w k p = k.after w p
  answered-keeps (some a) again w k p = p

  call_until-Keeps : (fuel : ℕ) (request : Request) → Keeps P (call_until server fuel request)
  unfolding call_until
  call_until-Keeps zero request = record { after = λ w p. p }
  call_until-Keeps (suc fuel) request = record {
    after = λ w p.
        answered-keeps (server.call request w).0 (call_until server fuel request)
          (server.call request w).1 (call_until-Keeps fuel request) (keeps request w p);
  }

  check-Keeps : (p : Response) → Keeps P (check server p)
  unfolding check
  check-Keeps p =
      if-Keeps (nonzero p.dht_errno) _ _ (fail-Keeps (raise dht_error))
        (if-Keeps (nonzero p.key_errno) _ _ (fail-Keeps (raise key_missing_error)) (pure-Keeps tt))

  module _ (fuel : ℕ) {T : Type 0} (derived : Derived T) (instructions : Archive Instruction) where
    pub get_pair-Keeps : (pair : Value T) → Keeps P (get_pair server fuel derived instructions pair)
    unfolding get_pair get
    get_pair-Keeps pair =
        bind-Keeps _ _
          (bind-Keeps _ _
            (call_until-Keeps fuel
              (generate_op server harmony_read (get_key derived instructions pair) none))
            (λ p. bind-Keeps _ _ (check-Keeps p) (λ _. fail-Keeps (value_member server p.value))))
          (λ raw. fail-Keeps (set_value derived instructions raw pair))

    pub set_pair-Keeps : (pair : Value T) → Keeps P (set_pair server fuel derived instructions pair)
    unfolding set_pair put
    set_pair-Keeps pair =
        bind-Keeps _ _
          (bind-Keeps _ _
            (call_until-Keeps fuel (
              generate_op server harmony_write (get_key derived instructions pair)
                (some (get_value derived instructions pair))))
            (λ p. bind-Keeps _ _ (check-Keeps p) (λ _. pure-Keeps _)))
          (λ _. pure-Keeps tt)
