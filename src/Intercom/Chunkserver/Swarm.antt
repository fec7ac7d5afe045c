-- ===== src/Intercom/Chunkserver/Swarm.antt =====
-- What a swarm lists once a chunkserver has joined it.
use colony_fs.Base.{
  Option, none, some, ℕ, suc, String, List, [], ◌∷◌, ◌++◌, none, some, ◌≡◌, refl, ◌∙◌, sym, ap,
  arith, Option-cases, ◌⊎◌, inl, inr,
}
use colony_fs.Base.Outcome.{
  Outcome, ok, raise, blocked, undefined, key_missing_error, and_then, continue,
}
use colony_fs.Dht.Values.{
  Archive, Instruction, Derived, Value, get_key, get_value, set_value, chunkserver_value,
  new_pointer, append,
}
use colony_fs.Dht.Values.RoundTrip.{set_value-get_value}
use colony_fs.Dht.Harmony.{Server, get_pair, set_pair, key_hash}
use colony_fs.Dht.Harmony.Table.{Table, get_lem, stored}
use colony_fs.Dht.Policies.Metadata.{put_there}
use colony_fs.Intercom.Chunkserver.{or_new, join_swarm}

mapped-append :
    (hostname : String) (i : Instruction) (xs : List String)
    → (append hostname (record { instruction = i; mapped = xs })).mapped ≡ xs ++ (hostname ∷ [])
unfolding append
mapped-append hostname i [] = refl
mapped-append hostname i (x ∷ xs) = ap (x ∷◌) (mapped-append hostname i xs)

pub append_lem :
    (hostname : String) (v : Value (List String))
    → append hostname v
      ≡ record { instruction = v.instruction; mapped = v.mapped ++ (hostname ∷ []) }
unfolding append
append_lem hostname v =
    ap (λ (xs : List String). record { instruction = v.instruction; mapped = xs })
      (mapped-append hostname v.instruction v.mapped)

filled_same :
    {T : Type 0} (r : Outcome T) (u v : Value T)
    → and_then r (λ m. ok (record { instruction = u.instruction; mapped = m })) ≡ ok v
    → u.instruction ≡ v.instruction
filled_same (ok m) u v e = ground arith
filled_same (raise x) u v e = cc
filled_same blocked u v e = cc
filled_same undefined u v e = cc

or_new_cases : {A : Type 0} (r : Outcome A) (u v : A) → or_new r u ≡ ok v → (r ≡ ok v) ⊎ (u ≡ v)
or_new_cases (ok a) u v e = inl e
or_new_cases (raise x) u v e = ground arith
or_new_cases blocked u v e = cc
or_new_cases undefined u v e = cc

module _ {W T : Type 0} (server : Server W) (table : Table server)
    (instructions : Archive Instruction) (derived : Derived T) where
  -- What a read of a pair makes of the text that is stored for it.
  abbrev filled_by : Option String → Value T → Outcome (Value T)
  filled_by none u = raise key_missing_error
  filled_by (some text) u = set_value derived instructions text u

  -- A read from the table leaves what it stores.
  get_pair_lem :
      (n : ℕ) (u : Value T) (w : W)
      → (w' : W) × (get_pair server (suc n) derived instructions u w
          ≡ (filled_by (stored server table (get_key derived instructions u) w) u, w'))
        × ((j : ℕ) → table.lookup w' j ≡ table.lookup w j)
  unfolding get_pair
  get_pair_lem n u w =
      let (w', e, f) = get_lem server table n (get_key derived instructions u) w in
      (
        w',
        rw e (elim (Option-cases (stored server table (get_key derived instructions u) w)) [
          | inl missing ↦ rw missing refl
          | inr (text, there) ↦ rw there refl
        ]),
        f,
      )

  -- What a read answers depends on the table alone.
  pub get_pair-same :
      (m : ℕ) (u : Value T) (w w' : W)
      → ((j : ℕ) → table.lookup w' j ≡ table.lookup w j)
      → (get_pair server (suc m) derived instructions u w').0
        ≡ (get_pair server (suc m) derived instructions u w).0
  get_pair-same m u w w' same =
      let (w2, e, _) = get_pair_lem m u w in
      let (w3, f, _) = get_pair_lem m u w' in
      let key = key_hash server (get_key derived instructions u) in
      rw (e, f) (ap (λ (x : Option String). filled_by x u) (same key))

  -- A second read answers like the first.
  pub get_pair-get_pair :
      (n m : ℕ) (u : Value T) (w : W)
      → (get_pair server
          (suc m)
          derived
          instructions
          u
          (get_pair server (suc n) derived instructions u w).1).0
        ≡ (get_pair server (suc m) derived instructions u w).0
  unfolding get_pair
  get_pair-get_pair n m u w =
      let (w', e, f) = get_pair_lem n u w in
      let (w'', g, _) = get_pair_lem m u w' in
      let (w3, k, _) = get_pair_lem m u w in
      let key = key_hash server (get_key derived instructions u) in
      rw (e, g, k) (ap (λ (x : Option String). filled_by x u) (f key))

  set_value-instruction :
      (text : String) (u v : Value T)
      → set_value derived instructions text u ≡ ok v
      → u.instruction ≡ v.instruction
  unfolding set_value
  set_value-instruction text u v e = filled_same (derived.archive.read text) u v e

  pub get_pair-set_pair :
      (n m : ℕ) (v u : Value T) (w : W)
      → u.instruction ≡ v.instruction
      → ((set_pair server (suc n) derived instructions v w).0 ≡ ok tt)
        × ((get_pair server
              (suc m)
              derived
              instructions
              u
              (set_pair server (suc n) derived instructions v w).1).0
            ≡ ok v)
  unfolding set_pair get_key
  get_pair-set_pair n m v u w same =
      let (w', e, there) =
        put_there server table instructions derived n (get_key derived instructions v)
          (get_value derived instructions v) w in
      let key : get_key derived instructions u ≡ get_key derived instructions v =
        ap instructions.write same in
      let (w'', f, _) = get_pair_lem m u w' in
      rw e (refl, rw (f, key, there) (set_value-get_value derived instructions v u same))

  get_pair-instruction :
      (m : ℕ) (u v : Value T) (w : W)
      → (get_pair server (suc m) derived instructions u w).0 ≡ ok v
      → u.instruction ≡ v.instruction
  get_pair-instruction m u v w e =
      let (w', f, _) = get_pair_lem m u w in
      let g = sym (ap (λ (x : Outcome (Value T) × W). x.0) f) ∙ e in
      elim (Option-cases (stored server table (get_key derived instructions u) w)) [
        | inl missing ↦ let h : raise key_missing_error ≡ ok v = rw missing at g in cc
        | inr (t, there) ↦ set_value-instruction t u v (rw there at g)
      ]

  pub or_new-instruction :
      (m : ℕ) (u v : Value T) (w : W)
      → or_new (get_pair server (suc m) derived instructions u w).0 u ≡ ok v
      → u.instruction ≡ v.instruction
  or_new-instruction m u v w e =
      elim (or_new_cases (get_pair server (suc m) derived instructions u w).0 u v e) [
        | inl read ↦ get_pair-instruction m u v w read
        | inr same ↦ ap (λ (x : Value T). x.instruction) same
      ]

module _ {W : Type 0} (server : Server W) (table : Table server)
    (instructions : Archive Instruction) (strings : Archive (List String)) (numbers : Archive ℕ)
    (text : Archive String) where
  abbrev hosts : Derived (List String)
  hosts = chunkserver_value strings numbers text

  -- What a client reads of a swarm: `SetCSL` asks for the same pair.
  abbrev pub members : ℕ → String → W → Outcome (Value (List String))
  members m swarm w =
      (get_pair server m hosts instructions (new_pointer hosts instructions swarm) w).0

  -- What a host commits.
  joined :
      (n : ℕ) (swarm hostname : String) (w : W) (v : Value (List String))
      → or_new (members n swarm w) (new_pointer hosts instructions swarm) ≡ ok v
      → join_swarm server n instructions strings numbers text swarm hostname w
        ≡ set_pair server n hosts instructions
            (append hostname v)
            (get_pair server n hosts instructions (new_pointer hosts instructions swarm) w).1
  unfolding join_swarm
  joined n swarm hostname w v e =
      ap
        (λ (r : Outcome (Value (List String))).
          continue r (λ x. set_pair server n hosts instructions (append hostname x))
            (get_pair server n hosts instructions (new_pointer hosts instructions swarm) w).1)
        e

  -- Over a table, a host that joins its swarm, when the members of the swarm could be read or there
  -- were none yet, is afterwards read as the last one of them, after those that were there.
  pub members-join_swarm :
      (n m : ℕ) (swarm hostname : String) (w : W) (v : Value (List String))
      → or_new (members (suc n) swarm w) (new_pointer hosts instructions swarm) ≡ ok v
      → ((join_swarm server (suc n) instructions strings numbers text swarm hostname w).0 ≡ ok tt)
        × (members
              (suc m)
              swarm
              (join_swarm server (suc n) instructions strings numbers text swarm hostname w).1
            ≡ ok (record { instruction = v.instruction; mapped = v.mapped ++ (hostname ∷ []) }))
  members-join_swarm n m swarm hostname w v e =
      let info = new_pointer hosts instructions swarm in
      let w' = (get_pair server (suc n) hosts instructions info w).1 in
      let same = or_new-instruction server table instructions hosts n info v w e in
      rw (joined (suc n) swarm hostname w v e, append_lem hostname v)
        (get_pair-set_pair server table instructions hosts n m
          (record { instruction = v.instruction; mapped = v.mapped ++ (hostname ∷ []) }) info w'
          same)
