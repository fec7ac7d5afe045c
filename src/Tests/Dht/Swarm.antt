-- ===== src/Tests/Dht/Swarm.antt =====
-- A swarm over the table, and an archive of lists: "1" before each letter, "0" after a text.
use Prim.Native.Char.{Char, code}
use colony_fs.Base.{
  ℕ, zero, suc, ◌==◌, String, List, [], ◌∷◌, ◌≡◌, refl, ap, ℕ_discrete, if◌then◌else◌,
}
use colony_fs.Base.Outcome.{Outcome, ok, and_then}
use colony_fs.Dht.Values.{Archive, Value, chunkserver_instruction, new_pointer, chunkserver_value}
use colony_fs.Dht.Harmony.{get_pair, check}
use colony_fs.Base.Map.{Map, find}
use colony_fs.Base.Int.{ℤ-discrete}
use colony_fs.Intercom.Chunkserver.{or_new}
use colony_fs.Intercom.Chunkserver.Swarm.{members}
use colony_fs.Tests.Dht.{instructions, text, server, table}

abbrev write_text : String → String → String
write_text String.[] rest = String.◌∷◌ "0" rest
write_text (String.◌∷◌ c s) rest = String.◌∷◌ "1" (String.◌∷◌ c (write_text s rest))

abbrev write_list : List String → String
write_list [] = ""
write_list (s ∷ ss) = write_text s (write_list ss)

abbrev grow : Char → List String → List String
grow c [] = []
grow c (s ∷ ss) = String.◌∷◌ c s ∷ ss

abbrev read_list : String → Outcome (List String)
read_list String.[] = ok []
read_list (String.◌∷◌ d String.[]) = ok ("" ∷ [])
read_list (String.◌∷◌ d (String.◌∷◌ c s)) =
    let short = read_list (String.◌∷◌ c s) in
    let long = read_list s in
    if code d == 48
    then and_then short (λ ss. ok ("" ∷ ss))
    else and_then long (λ ss. ok (grow c ss))

read_list-end :
    (s : String) (ss : List String)
    → read_list s ≡ ok ss
    → read_list (String.◌∷◌ "0" s) ≡ ok ("" ∷ ss)
read_list-end String.[] ss e = ap (λ (r : Outcome (List String)). and_then r (λ xs. ok ("" ∷ xs))) e
read_list-end (String.◌∷◌ c s) ss e = rw e refl

read_list-write_text :
    (t s : String) (ss : List String)
    → read_list s ≡ ok ss
    → read_list (write_text t s) ≡ ok (t ∷ ss)
read_list-write_text String.[] s ss e = read_list-end s ss e
read_list-write_text (String.◌∷◌ c t) s ss e = rw (read_list-write_text t s ss e) refl

pub read_list-write_list : (ss : List String) → read_list (write_list ss) ≡ ok ss
read_list-write_list [] = refl
read_list-write_list (s ∷ ss) = read_list-write_text s (write_list ss) ss (read_list-write_list ss)

abbrev pub strings : Archive (List String)
strings = record { write = write_list; read = read_list; read-write = read_list-write_list }

-- One letter for each unit.
abbrev unary : ℕ → String
unary zero = ""
unary (suc n) = String.◌∷◌ "i" (unary n)

abbrev count_letters : String → ℕ
count_letters String.[] = 0
count_letters (String.◌∷◌ c s) = suc (count_letters s)

pub count_letters-unary : (n : ℕ) → ok (count_letters (unary n)) ≡ ok n
count_letters-unary zero = refl
count_letters-unary (suc n) =
    ap (λ (r : Outcome ℕ). and_then r (λ m. ok (suc m))) (count_letters-unary n)

abbrev pub numbers : Archive ℕ
numbers = record {
  write = unary;
  read = λ s. ok (count_letters s);
  read-write = count_letters-unary;
}

abbrev pub first_host : Value (List String)
first_host = record {
  instruction = record { kind = chunkserver_instruction; argument = "swarm" };
  mapped = "amber" ∷ [];
}

abbrev pub amber_world : Map ℕ String
amber_world = (6, write_list ("amber" ∷ [])) ∷ []

pub one_host :
    or_new
      (members server table instructions strings numbers text 1 "swarm" amber_world)
      (new_pointer (chunkserver_value strings numbers text) instructions "swarm")
    ≡ ok first_host
unfolding new_pointer chunkserver_value get_pair check find ℕ_discrete ℤ-discrete
one_host = refl
