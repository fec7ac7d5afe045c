-- ===== src/Dht/Harmony.antt =====
-- xmlrpc/harmony.*: the client of the distributed hash table. The XML-RPC server and the hash of
-- `boost::hash` are parameters; what the server keeps is part of the state `W`.
pub mod Table
pub mod Untouched
use colony_fs.Base.{
  ℕ, zero, suc, ◌%◌, ◌^◌, String, Bool, true, false, Option, none, some, ◌≡◌, refl, ite,
  if◌then◌else◌,
}
use colony_fs.Base.Int.{ℤ, pos, ℤ-discrete}
use colony_fs.Base.Outcome.{
  Outcome, ok, raise, blocked, undefined, Action, ◌>>=◌, ◌>>◌, continue, pure, fail, dht_error,
  key_missing_error, girerr_error,
}
use colony_fs.Dht.Values.{
  Archive, Instruction, Derived, Value, get_key, get_value, set_value, reconstruct,
}

-- `HarmonyOperation`
pub data HarmonyOperation : Type 0 where
  harmony_read harmony_write : HarmonyOperation

-- `op_param` of `generate_op` with the operation's type: the members "key" and "value".
pub record Request : Type 0 where
  pub operation : HarmonyOperation
  pub key : ℕ
  pub value : Option String

-- The array that the server answers with: `dht_errno` at 0, and of the struct at 2 the members
-- "err" and, for a read, "value".
pub record Response : Type 0 where
  pub dht_errno : ℤ
  pub key_errno : ℤ
  pub value : Option String

-- `clientSimple::call`, where no response stands for the exception `girerr::error`.
pub record Server (W : Type 0) : Type 0 where
  pub hash : String → ℕ
  pub call : Request → W → Option Response × W

abbrev pub nonzero : ℤ → Bool
nonzero n = ite (ℤ-discrete n (pos 0)) false true

module _ {W : Type 0} (server : Server W) where
  -- `(unsigned short) string_hash(key)`
  unfoldable pub key_hash : String → ℕ
  key_hash key = server.hash key % 2 ^ 16

  unfoldable pub generate_op : HarmonyOperation → String → Option String → Request
  unfolding key_hash
  generate_op operation key value = record {
    operation = operation;
    key = key_hash key;
    value = value;
  }

  -- What comes after a call: the handler of `girerr::error`, or the rest.
  abbrev pub answered : Option Response → Action W Response → Action W Response
  answered none again w = again w
  answered (some p) again w = (ok p, w)

  -- The loop at `RetryPut`: the call is made again for as long as it throws. The sleep between two
  -- calls is left out. With no fuel left the loop is still waiting.
  unfoldable pub call_until : ℕ → Request → Action W Response
  call_until zero request w = (blocked, w)
  call_until (suc fuel) request w =
      let (r, w') = server.call request w in answered r (call_until fuel request) w'

  -- The two error numbers of a response.
  unfoldable pub check : Response → Action W (Unit {0})
  check p =
      if nonzero p.dht_errno
      then fail (raise dht_error)
      else if nonzero p.key_errno
      then fail (raise key_missing_error)
      else pure tt

  abbrev pub value_member : Option String → Outcome String
  value_member none = raise girerr_error
  value_member (some v) = ok v

  module _ (fuel : ℕ) where
    unfoldable pub put : String → String → Action W Bool
    unfolding call_until generate_op check
    put key value = do
      p ← call_until fuel (generate_op harmony_write key (some value))
      check p
      pure true

    unfoldable pub get : String → Action W String
    unfolding call_until generate_op check
    get key = do
      p ← call_until fuel (generate_op harmony_read key none)
      check p
      fail (value_member p.value)

    module _ {T : Type 0} (derived : Derived T) (instructions : Archive Instruction) where
      -- `get_value(raw_key)`
      unfoldable pub get_reconstructed : String → Action W (Value T)
      unfolding get reconstruct
      get_reconstructed raw_key = do
        raw ← get raw_key
        fail (reconstruct derived instructions raw_key raw)

      -- `get_pair(pair)`, and `get_value(pair)`, which does the same: the pair afterwards.
      unfoldable pub get_pair : Value T → Action W (Value T)
      unfolding get get_key set_value
      get_pair pair = do
        raw ← get (get_key derived instructions pair)
        fail (set_value derived instructions raw pair)

      -- `set_pair`
      unfoldable pub set_pair : Value T → Action W (Unit {0})
      unfolding put get_key get_value
      set_pair pair = do
        put (get_key derived instructions pair) (get_value derived instructions pair)
        pure tt
