-- ===== src/Dht/Policies/Keys.antt =====
-- A value that a cache fills from the network keeps its key (cache/policy/).
use colony_fs.Base.{ℕ, String, List, ◌≡◌, ap}
use colony_fs.Base.Int.{ℤ}
use colony_fs.Base.Key.{string_key, chunk_key}
use colony_fs.Base.Outcome.{
  Outcome, ok, raise, blocked, undefined, and_then, key_missing_error, Action, continue, fail,
}
use colony_fs.Storage.Metadata
use colony_fs.Storage.Chunk.{Chunk}
use colony_fs.Cache.Sound.Misses.{KeepsKey}
use colony_fs.Dht.Values.{Archive, Instruction, Derived, Value, get_key, set_value}
use colony_fs.Dht.Harmony.{Server, get_pair}
use colony_fs.Dht.Policies.{Peers, as_lookup, pre_read, metadata_policy, read_chunk, data_policy}
use colony_fs.Sink.Data.{chunk_policy}

-- The last step of a call that ended well ended well.
continue_ok :
    {S A B : Type 0} (r : Outcome A) (f : A → Action S B) (s : S) (b : B)
    → (continue r f s).0 ≡ ok b
    → (a : A) × ((f a s).0 ≡ ok b)
continue_ok (ok a) f s b e = (a, e)
continue_ok (raise x) f s b e = cc
continue_ok blocked f s b e = cc
continue_ok undefined f s b e = cc

-- What is read has taken a new mapped value, and nothing else.
and_then_ok :
    {T : Type 0} (r : Outcome T) (v v' : Value T)
    → and_then r (λ m. ok (record v { mapped = m })) ≡ ok v'
    → v'.instruction ≡ v.instruction
and_then_ok (ok m) v v' e = cc
and_then_ok (raise x) v v' e = cc
and_then_ok blocked v v' e = cc
and_then_ok undefined v v' e = cc

as_lookup_ok : {A : Type 0} (r : Outcome A) (a : A) → as_lookup r ≡ ok a → r ≡ ok a
as_lookup_ok (ok b) a e = e
as_lookup_ok (raise key_missing_error) a e = cc
as_lookup_ok (raise _) a e = e
as_lookup_ok blocked a e = e
as_lookup_ok undefined a e = e

-- A server's chunk comes back under the name that was asked for.
abbrev pub KeepsName : {W : Type 0} → Peers W → Type 0
KeepsName {W} peers =
    (hostname : String) (c c' : Chunk) (w : W)
    → (peers.retrieve_chunk hostname c w).0 ≡ ok c'
    → c'.metadata ≡ c.metadata

module _ {W : Type 0} (server : Server W) (fuel : ℕ) (instructions : Archive Instruction) where
  pub metadata_policy-KeepsKey :
      {T : Type 0} (derived : Derived T)
      → KeepsKey (metadata_policy server fuel instructions derived)
  unfolding metadata_policy pre_read get_pair set_value get_key
  metadata_policy-KeepsKey derived v v' w e =
      let (raw, f) =
        continue_ok _ (λ raw. fail (set_value derived instructions raw v)) _ v'
          (as_lookup_ok _ v' e) in
      ap instructions.write (and_then_ok (derived.archive.read raw) v v' f)

  pub data_policy-KeepsKey :
      (text : Archive String) (decimal : ℤ → String) (peers : Peers W) (servers : List String)
      → KeepsName peers
      → KeepsKey (chunk_policy (data_policy server fuel instructions text decimal peers servers))
  unfolding chunk_policy data_policy read_chunk
  data_policy-KeepsKey text decimal peers servers named v v' w e =
      let (info, f) = continue_ok _ (λ info. peers.retrieve_chunk info.mapped v) _ v' e in
      ap Metadata.get_key (named info.mapped v v' _ f)
