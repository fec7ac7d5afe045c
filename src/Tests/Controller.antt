-- ===== src/Tests/Controller.antt =====
-- The index of hosts over a list, with the calls of test/db/db_test.cpp.
use colony_fs.Base.{String, List, [], ◌∷◌, ◌++◌, ◌≡◌, refl, ite, arith, ℕ_discrete}
use colony_fs.Base.Int.{pos, ℤ-discrete}
use colony_fs.Base.Key.{ChunkKey, ChunkKey-discrete, String-discrete}
use colony_fs.Storage.Metadata.{get_key}
use colony_fs.Controller.NetworkDb.{
  NetworkMetadata, network_metadata, without, Container, network_db, find_chunk, Call, add,
  drop_host, run,
}
use colony_fs.Controller.NetworkDb.Holders.{holders, find_chunk-holders}

abbrev of_key : ChunkKey → List NetworkMetadata → List NetworkMetadata
of_key k [] = []
of_key k (c ∷ cs) = ite (ChunkKey-discrete (get_key c.basic) k) (c ∷ of_key k cs) (of_key k cs)

of_key-append_one :
    (k : ChunkKey) (c : NetworkMetadata) (cs : List NetworkMetadata)
    → of_key k (cs ++ (c ∷ []))
      ≡ ite (ChunkKey-discrete (get_key c.basic) k) (of_key k cs ++ (c ∷ [])) (of_key k cs)
of_key-append_one k c [] = refl
of_key-append_one k c (d ∷ cs) = ground (arith, of_key-append_one k c cs)

of_key-without :
    (k : ChunkKey) (host : String) (cs : List NetworkMetadata)
    → of_key k (without host cs) ≡ without host (of_key k cs)
of_key-without k host [] = refl
of_key-without k host (c ∷ cs) = ground (arith, of_key-without k host cs)

abbrev list_container : Container
list_container = record {
  Entries = List NetworkMetadata;
  empty = [];
  insert = λ c cs. cs ++ (c ∷ []);
  erase_host = without;
  equal_range = of_key;
  equal_range-empty = λ k. refl;
  equal_range-insert = of_key-append_one;
  equal_range-erase_host = of_key-without;
}

-- `main`, up to the question who has the chunk.
abbrev db_test : List (Call list_container)
db_test =
    add (network_metadata "myfile1" (pos 1) "192.168.10.1")
    ∷ add (network_metadata "myfile1" (pos 2) "192.168.10.2")
    ∷ add (network_metadata "myfile1" (pos 3) "192.168.10.3")
    ∷ add (network_metadata "myfile1" (pos 1) "192.168.10.4")
    ∷ add (network_metadata "myfile1" (pos 1) "192.168.10.1")
    ∷ drop_host "192.168.10.1"
    ∷ []

db_test_answer :
    holders list_container ("myfile1", pos 1) db_test
    ≡ network_metadata "myfile1" (pos 1) "192.168.10.4" ∷ []
unfolding network_metadata ChunkKey-discrete String-discrete get_key ℤ-discrete ℕ_discrete
db_test_answer = refl

find_chunk-holders_example :
    find_chunk list_container "myfile1"
      (pos 1)
      (run list_container db_test (network_db list_container))
    ≡ holders list_container ("myfile1", pos 1) db_test
find_chunk-holders_example = find_chunk-holders list_container "myfile1" (pos 1) db_test
