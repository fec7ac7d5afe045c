-- ===== src/Dht/Harmony/Table.antt =====
-- The client over a server that is a table.
use colony_fs.Base.{
  ℕ, suc, String, true, Option, none, some, ◌≡◌, refl, ite, ℕ_discrete, arith, ap, Option-cases,
  inl, inr,
}
use colony_fs.Base.Int.{pos, ℤ-discrete}
use colony_fs.Base.Outcome.{Outcome, ok, raise, Action, key_missing_error}
use colony_fs.Dht.Harmony.{
  harmony_read, harmony_write, Request, Response, Server, key_hash, generate_op, call_until,
  answered, check, put, get,
}

abbrev pub success : Option String → Response
success value = record { dht_errno = pos 0; key_errno = pos 0; value = value }

-- `E_NOT_FOUND`
abbrev pub not_found : Response
not_found = record { dht_errno = pos 0; key_errno = pos 8; value = none }

abbrev pub reply : Option String → Response
reply none = not_found
reply (some v) = success (some v)

-- What the server of the hash table does, where it answers every call: it keeps the last value
-- that was written under a number, and says so where there is none.
pub record Table {W : Type 0} (server : Server W) : Type 0 where
  pub lookup : W → ℕ → Option String
  pub read_reply :
      (k : ℕ) (w : W)
      → (w' : W) × (server.call (record { operation = harmony_read; key = k; value = none }) w
          ≡ (some (reply (lookup w k)), w'))
        × ((j : ℕ) → lookup w' j ≡ lookup w j)
  pub write_reply :
      (k : ℕ) (v : String) (w : W)
      → (w' : W) × (server.call (record { operation = harmony_write; key = k; value = some v }) w
          ≡ (some (success none), w'))
        × ((j : ℕ) → lookup w' j ≡ ite (ℕ_discrete k j) (some v) (lookup w j))

answered_same :
    {W : Type 0} (server : Server W) (r : Option Response) (f g : Action W Response) (w : W)
    (x : Outcome Response × W)
    → ((v : W) → f v ≡ x → g v ≡ x)
    → answered server r f w ≡ x
    → answered server r g w ≡ x
answered_same server none f g w x h e = h w e
answered_same server (some p) f g w x h e = e

module _ {W : Type 0} (server : Server W) where
  call_once :
      (n : ℕ) (request : Request) (p : Response) (w w' : W)
      → server.call request w ≡ (some p, w')
      → call_until server (suc n) request w ≡ (ok p, w')
  unfolding call_until
  call_once n request p w w' e =
      ap (λ (x : Option Response × W). answered server x.0 (call_until server n request) x.1) e

  check-success : (v : Option String) (w : W) → check server (success v) w ≡ (ok tt, w)
  unfolding check ℤ-discrete ℕ_discrete
  check-success v w = refl

  check_missing : (w : W) → check server not_found w ≡ (raise key_missing_error, w)
  unfolding check ℤ-discrete ℕ_discrete
  check_missing w = refl

abbrev pub or_missing : Option String → Outcome String
or_missing none = raise key_missing_error
or_missing (some v) = ok v

module _ {W : Type 0} (server : Server W) (table : Table server) where
  -- The value that the table has for a string.
  abbrev pub stored : String → W → Option String
  stored key w = table.lookup w (key_hash server key)

  pub get_lem :
      (n : ℕ) (key : String) (w : W)
      → (w' : W) × (get server (suc n) key w ≡ (or_missing (stored key w), w'))
        × ((j : ℕ) → table.lookup w' j ≡ table.lookup w j)
  unfolding get generate_op
  get_lem n key w =
      let k = key_hash server key in
      let request = generate_op server harmony_read key none in
      let (w', e, f) = table.read_reply k w in
      (
        w',
        rw (call_once server n request (reply (table.lookup w k)) w w' e)
            (elim (Option-cases (table.lookup w k)) [
              | inl none_there ↦ rw (none_there, reply, check_missing server) refl
              | inr (v, there) ↦ rw (there, reply, check-success server (some v)) refl
            ]),
        f,
      )

  pub put_lem :
      (n : ℕ) (key value : String) (w : W)
      → (w' : W) × (put server (suc n) key value w ≡ (ok true, w'))
        × ((j : ℕ)
            → table.lookup w' j
              ≡ ite (ℕ_discrete (key_hash server key) j) (some value) (table.lookup w j))
  unfolding put generate_op
  put_lem n key value w =
      let (w', e, f) = table.write_reply (key_hash server key) value w in
      let request = generate_op server harmony_write key (some value) in
      (w', rw (call_once server n request (success none) w w' e, check-success server none) refl, f)

  -- After a `put` every `get` of a key with the same 16 bits of the hash returns the value that
  -- was put, and every other `get` returns what it would have returned before.
  pub get-put :
      (n m : ℕ) (key j value : String) (w : W)
      → ((put server (suc n) key value w).0 ≡ ok true)
        × ((get server (suc m) j (put server (suc n) key value w).1).0
            ≡ ite
                (ℕ_discrete (key_hash server key) (key_hash server j))
                (ok value)
                (get server (suc m) j w).0)
  get-put n m key j value w =
      let (w1, e1, f1) = put_lem n key value w in
      let (w2, e2, f2) = get_lem m j w1 in
      let (w3, e3, f3) = get_lem m j w in rw (e1, e2, e3) (ground (arith, f1 (key_hash server j)))
