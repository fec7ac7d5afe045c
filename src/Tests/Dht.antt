-- ===== src/Tests/Dht.antt =====
-- A hash table server that keeps a map, and archives that put one letter before the text.
pub mod Swarm
pub mod Startup
pub mod Joins
use Prim.Native.Char.{Char, code}
use Prim.Native.String.{len}
use colony_fs.Base.{
  [], ◌∷◌, ℕ, ◌==◌, String, true, Option, none, some, ◌≡◌, refl, if◌then◌else◌, ite, ℕ_discrete,
  ltb, arith,
}
use colony_fs.Base.Key.{Key}
use colony_fs.Base.Map.{Map, find, insert, find-insert}
use colony_fs.Base.Outcome.{Outcome, ok, raise, archive_exception}
use colony_fs.Dht.Values.{
  Archive, Instruction, InstructionEnum, noop_instruction, chunkserver_instruction,
  filename_instruction, chunk_instruction, attribute_instruction, Derived, Value, get_key,
  get_value, reconstruct, new_pointer, get_signature,
}
use colony_fs.Dht.Values.RoundTrip.{reconstruct-get, get_key-new_pointer}
use colony_fs.Dht.Harmony.{
  Server, Request, Response, harmony_read, harmony_write, put, get, key_hash, call_until,
}
use colony_fs.Dht.Harmony.Table.{Table, reply, success, get-put}
use colony_fs.Dht.Policies.{on_erase, pre_read}
use colony_fs.Dht.Policies.Metadata.{pre_read-on_erase}

abbrev letter : InstructionEnum → Char
letter noop_instruction = "0"
letter chunkserver_instruction = "1"
letter filename_instruction = "2"
letter chunk_instruction = "3"
letter attribute_instruction = "4"

abbrev kind_of : ℕ → InstructionEnum
kind_of n =
    if n == 49
    then chunkserver_instruction
    else if n == 50
    then filename_instruction
    else if n == 51
    then chunk_instruction
    else if n == 52
    then attribute_instruction
    else noop_instruction

abbrev pub read_instruction : String → Outcome Instruction
read_instruction String.[] = raise archive_exception
read_instruction (String.◌∷◌ c s) = ok (record { kind = kind_of (code c); argument = s })

abbrev pub read_text : String → Outcome String
read_text String.[] = raise archive_exception
read_text (String.◌∷◌ c s) = ok s

pub read-letter :
    (i : Instruction) → read_instruction (String.◌∷◌ (letter i.kind) i.argument) ≡ ok i
read-letter i = with_kind i.kind i.argument
  where
    with_kind :
        (k : InstructionEnum) (s : String)
        → read_instruction (String.◌∷◌ (letter k) s) ≡ ok (record { kind = k; argument = s })
    with_kind noop_instruction s = refl
    with_kind chunkserver_instruction s = refl
    with_kind filename_instruction s = refl
    with_kind chunk_instruction s = refl
    with_kind attribute_instruction s = refl

abbrev pub instructions : Archive Instruction
instructions = record {
  write = λ i. String.◌∷◌ (letter i.kind) i.argument;
  read = read_instruction;
  read-write = read-letter;
}

abbrev pub text : Archive String
text = record { write = λ s. String.◌∷◌ "t" s; read = read_text; read-write = λ s. refl }

instance abbrev nat_key : Key ℕ
nat_key = record { eq = ℕ_discrete; before = ltb }

abbrev or_nothing : Option String → String
or_nothing none = ""
or_nothing (some v) = v

abbrev answer : Request → Map ℕ String → Option Response × Map ℕ String
answer request w = elim request.operation [
  | harmony_read ↦ (some (reply (find request.key w)), w)
  | harmony_write ↦ (some (success none), insert request.key (or_nothing request.value) w)
]

abbrev pub server : Server (Map ℕ String)
server = record { hash = len; call = answer }

abbrev pub table : Table server
table = record {
  lookup = λ w k. find k w;
  read_reply = λ k w. (w, refl, λ j. refl);
  write_reply = λ k v w. (insert k v w, refl, λ j. find-insert j k v w);
}

abbrev chunks : Derived String
chunks = record { signature = chunk_instruction; archive = text; initial = "" }

abbrev song : Value String
song = record {
  instruction = record { kind = chunk_instruction; argument = "0/song" };
  mapped = "carol";
}

abbrev blank : Value String
blank = record {
  instruction = record { kind = chunk_instruction; argument = "0/song" };
  mapped = "";
}

abbrev argument_a : String
argument_a = "a"

abbrev argument_b : String
argument_b = "b"

-- Two keys of one length have one hash here.
get-put_example :
    ((put server 1 "key" "new" []).0 ≡ ok true)
    × ((get server 2 "old" (put server 1 "key" "new" []).1).0
        ≡ ite
            (ℕ_discrete (key_hash server "key") (key_hash server "old"))
            (ok "new")
            (get server 2 "old" []).0)
get-put_example = get-put server table 0 1 "key" "old" "new" []

pre_read-on_erase_example :
    ((on_erase server 1 instructions chunks song []).0 ≡ ok tt)
    × ((pre_read server 1 instructions chunks blank
          (on_erase server 1 instructions chunks song []).1).0
        ≡ raise archive_exception)
pre_read-on_erase_example =
    pre_read-on_erase server table instructions chunks 0 0 song blank [] refl refl
