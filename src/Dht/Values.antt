-- ===== src/Dht/Values.antt =====
-- xmlrpc/values.hpp and algo/ValueFactory.hpp: typed values, and the keys and the text under which
-- the hash table has them. The buffers `key_`, `value_` and `value_byte_` are left out: the
-- getters fill one and return it, and nothing else reads them.
pub mod RoundTrip
use Prim.Native.String.{◌++◌}
use colony_fs.Base.{ℕ, String, List, [], ◌∷◌, ◌≡◌}
use colony_fs.Base.Outcome.{Outcome, ok, raise, blocked, undefined, and_then}

-- `boost::archive` on one type: what it writes it reads back, and text without an archive's header
-- is refused.
pub record Archive (A : Type 0) : Type 0 where
  pub write : A → String
  pub read : String → Outcome A
  pub read-write : (a : A) → read (write a) ≡ ok a

pub data InstructionEnum : Type 0 where
  noop_instruction chunkserver_instruction filename_instruction : InstructionEnum
  chunk_instruction attribute_instruction : InstructionEnum

-- `instruction`
pub record Instruction : Type 0 where
  pub kind : InstructionEnum
  pub argument : String

unfoldable pub no_instruction : Instruction
no_instruction = record { kind = noop_instruction; argument = "" }

-- What a class derived from `base_value` fixes: its signature, and the archive and the first value
-- of its mapped type.
pub record Derived (T : Type 0) : Type 0 where
  pub signature : InstructionEnum
  pub archive : Archive T
  pub initial : T

-- `base_value`
pub record Value (T : Type 0) : Type 0 where
  pub instruction : Instruction
  pub mapped : T

-- `chunkserver_value`, `filename_value` and `chunk_value`; the mapped type of `attribute_value` is
-- a parameter.
module _ (strings : Archive (List String)) (numbers : Archive ℕ) (text : Archive String) where
  unfoldable pub chunkserver_value : Derived (List String)
  chunkserver_value = record {
    signature = chunkserver_instruction;
    archive = strings;
    initial = [];
  }

  unfoldable pub filename_value : Derived ℕ
  filename_value = record { signature = filename_instruction; archive = numbers; initial = 0 }

unfoldable pub chunk_value : Archive String → Derived String
chunk_value text = record { signature = chunk_instruction; archive = text; initial = "" }

unfoldable pub attribute_value : {A : Type 0} → Archive A → A → Derived A
attribute_value attributes a = record {
  signature = attribute_instruction;
  archive = attributes;
  initial = a;
}

module _ {T : Type 0} (derived : Derived T) (instructions : Archive Instruction) where
  -- The default constructor, and the one that takes a type and an argument.
  unfoldable pub default : Value T
  unfolding no_instruction
  default = record { instruction = no_instruction; mapped = derived.initial }

  unfoldable pub of_instruction : InstructionEnum → String → Value T
  of_instruction kind argument = record {
    instruction = record { kind = kind; argument = argument };
    mapped = derived.initial;
  }

  unfoldable pub get_key : Value T → String
  get_key v = instructions.write v.instruction

  unfoldable pub get_value : Value T → String
  get_value v = derived.archive.write v.mapped

  unfoldable pub set_key : String → Value T → Outcome (Value T)
  set_key key v =
      and_then (instructions.read key) (λ i. ok (record { instruction = i; mapped = v.mapped }))

  unfoldable pub set_value : String → Value T → Outcome (Value T)
  set_value value v =
      and_then (derived.archive.read value)
        (λ m. ok (record { instruction = v.instruction; mapped = m }))

  unfoldable pub set_mapped : T → Value T → Value T
  set_mapped m v = record v { mapped = m }

  unfoldable pub set_instruction : String → Value T → Value T
  set_instruction argument v = record v {
    instruction = record { kind = derived.signature; argument = argument };
  }

  unfoldable pub get_signature : String → String
  get_signature argument =
      instructions.write (record { kind = derived.signature; argument = argument })

  -- `ValueFactory<T>::Reconstruct`
  unfoldable pub reconstruct : String → String → Outcome (Value T)
  unfolding default set_key set_value
  reconstruct key value = and_then (set_key key default) (set_value value)

  -- `ValueFactory<T>::NewPointer`
  unfoldable pub new_pointer : String → Value T
  unfolding default set_instruction
  new_pointer key = set_instruction key default

-- `chunkserver_value::append`
unfoldable pub append : String → Value (List String) → Value (List String)
append hostname v = record v { mapped = push_back v.mapped }
  where
    push_back : List String → List String
    push_back [] = hostname ∷ []
    push_back (x ∷ xs) = x ∷ push_back xs

-- The constructor of `chunk_value` for a chunk of a file; `decimal` is `boost::lexical_cast`.
unfoldable pub chunk_value_of : (ℕ → String) → String → ℕ → String → Value String
chunk_value_of decimal filename chunk_num location = record {
  instruction = record { kind = chunk_instruction; argument = decimal chunk_num ++ filename };
  mapped = location;
}
