-- ===== src/Tests/Storage/Network.antt =====
-- Chunkservers with no chunks, a hash table with no entries, and a chunk that is flushed and read.
use colony_fs.Base.{ℕ, String, List, [], ◌∷◌, ltb, ite, ℕ_discrete, ◌≡◌, refl, arith}
use colony_fs.Base.Map.{Map}
use colony_fs.Base.Key.{chunk_key}
use colony_fs.Base.Outcome.{ok}
use colony_fs.Storage.Chunk.{Chunk}
use colony_fs.Dht.Policies.{read_chunk, flush_chunk, csl}
use colony_fs.Intercom.Client.{Resolver, init_connection, handle_connect}
use colony_fs.Intercom.Network.{Network}
use colony_fs.Intercom.Network.Transfers.{Client, shared, user_harmony, drain}
use colony_fs.Intercom.Network.Latest.{read_chunk-flush_chunk}
use colony_fs.Tests.Dht.{server, table, instructions, text}
use colony_fs.Tests.Disk.{disk_system, decimal}
use colony_fs.Tests.Storage.{film, film_chunk, new_store, film_store, film_deposited, film_reads}
use colony_fs.Tests.Storage.Intercom.{film_codecs}

abbrev pub new_network : Network (Map ℕ String) disk_system
new_network = record { table = []; stores = λ host. new_store }

-- Each host has two addresses, and accepts at the second.
unfoldable pub resolver : Resolver ℕ (Network (Map ℕ String) disk_system)
resolver = record { resolve = λ host. ok (0, 1 ∷ []); accepts = λ e n. ltb 0 e }

abbrev pub blank_film : Chunk
blank_film = record { metadata = film; bytes = [] }

-- The client's object 0 has the bytes of the film, and the others have none.
abbrev pub idle_client : Client (Map ℕ String) ℕ disk_system
idle_client = record {
  network = new_network;
  objects = λ q. ite (ℕ_discrete 0 q) film_chunk blank_film;
  pending = [];
}

abbrev third : List String → Client (Map ℕ String) ℕ disk_system → ℕ
third servers c = 2

abbrev first : List String → Client (Map ℕ String) ℕ disk_system → ℕ
first servers c = 0

read_chunk-flush_chunk_example :
    let (r1, c1) =
      flush_chunk
        (shared disk_system server)
        1
        instructions
        text
        decimal
        (user_harmony disk_system film_codecs resolver third 0)
        csl
        film_chunk
        idle_client in
    let (r2, c2) = drain disk_system film_codecs resolver c1 in
    let (r3, c3) =
      read_chunk
        (shared disk_system server)
        1
        instructions
        text
        decimal
        (user_harmony disk_system film_codecs resolver first 1)
        (c2.objects 1)
        c2 in
    let (r4, c4) = drain disk_system film_codecs resolver c3 in
    (r1 ≡ ok tt)
    × (r2 ≡ ok tt)
    × (r3 ≡ ok blank_film)
    × (c3.objects ≡ idle_client.objects)
    × (r4 ≡ ok tt)
    × (c4.objects 1 ≡ film_chunk)
unfolding resolver init_connection handle_connect ℕ_discrete
read_chunk-flush_chunk_example =
    read_chunk-flush_chunk disk_system film_codecs resolver server table instructions text decimal
      third first 0 0 csl "eve" (0, 1 ∷ []) 0 1 idle_client film_store refl refl (λ n. (1, refl))
      refl ((omega arith), refl) ((omega arith), refl) ((omega arith), refl) ((omega arith), refl)
      film_deposited film_reads refl

-- No address of a host accepts.
unfoldable silent : Resolver ℕ (Network (Map ℕ String) disk_system)
silent = record { resolve = λ host. ok (0, 1 ∷ []); accepts = λ e n. ltb 1 e }
