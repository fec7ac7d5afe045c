-- ===== src/Tests/Storage/Transfers.antt =====
-- Transfers of the film that a client has begun.
use colony_fs.Base.{ℕ, String, List, [], ◌∷◌, ◌≡◌, refl, ap, ◌∙◌, arith}
use colony_fs.Base.Map.{Map}
use colony_fs.Base.Key.{chunk_key}
use colony_fs.Base.Outcome.{ok}
use colony_fs.Storage.Chunk.{Chunk}
use colony_fs.Intercom.Client.{init_connection, handle_connect}
use colony_fs.Intercom.Network.{Network, retrieve_at}
use colony_fs.Intercom.Network.Latest.{retrieve_at_lem}
use colony_fs.Intercom.Network.Transfers.{
  Client, Step, set_object, begin_retrieval, begin_deposit, drain,
}
use colony_fs.Intercom.Network.Transfers.Done.{ClientCall, retrieves, deposits}
use colony_fs.Intercom.Network.Transfers.InOrder.{begun, all_now, drain-begun}
use colony_fs.Intercom.Network.Transfers.Late.{begin_retrieval-late}
use colony_fs.Intercom.Chunkserver.{serve, retrieve_request}
use colony_fs.Intercom.Chunkserver.RoundTrip.{serve-requests}
use colony_fs.Tests.Disk.{disk_system}
use colony_fs.Tests.Storage.{film, film_chunk, new_store, film_store, film_deposited, film_reads}
use colony_fs.Tests.Storage.Intercom.{film_codecs}
use colony_fs.Tests.Storage.Network.{idle_client, blank_film, resolver}

abbrev calls : List ClientCall
calls = deposits "eve" 0 ∷ retrieves "eve" 1 ∷ []

drain-begun_example :
    drain disk_system film_codecs resolver
      (begun disk_system film_codecs resolver calls idle_client).1
    ≡ all_now disk_system film_codecs resolver calls idle_client
unfolding resolver begin_retrieval begin_deposit
drain-begun_example =
    drain-begun disk_system film_codecs resolver calls idle_client
      (begun disk_system film_codecs resolver calls idle_client).1 refl (tt, tt) refl

-- Each chunkserver has the film.
abbrev full_network : Network (Map ℕ String) disk_system
full_network = record { table = []; stores = λ host. film_store }

answers_film :
    (x : Chunk)
    → x.metadata ≡ film
    → (retrieve_at disk_system film_codecs resolver "eve" x full_network).0 ≡ ok film_chunk
unfolding resolver init_connection handle_connect
answers_film x same =
    let (sends, (bytes, gets, got)) =
      serve-requests disk_system film_codecs film_chunk x new_store film_store ((omega arith), refl)
        ((omega arith), refl) ((omega arith), refl) ((omega arith), refl) film_deposited
        film_reads in
    retrieve_at_lem disk_system film_codecs resolver "eve" x film_chunk bytes full_network
      film_store (1, refl) refl
      (ap (λ d. serve disk_system film_codecs (retrieve_request film_codecs d) film_store) same
        ∙ gets)
      got

abbrev reader : Client (Map ℕ String) ℕ disk_system
reader = record { network = full_network; objects = λ q. blank_film; pending = [] }

abbrev overwrite : Chunk → Chunk
overwrite x = record { metadata = x.metadata; bytes = 9 ∷ [] }

begin_retrieval-late_example :
    (u : Client (Map ℕ String) ℕ disk_system) × (t : Client (Map ℕ String) ℕ disk_system)
    × (begin_retrieval disk_system film_codecs resolver "eve" 0 reader ≡ (ok tt, u))
    × (u.objects ≡ reader.objects)
    × Step disk_system film_codecs resolver
        (set_object disk_system film_codecs resolver 0 (overwrite (u.objects 0)) u)
        t
    × (t.objects 0 ≡ film_chunk)
    × (t.pending ≡ [])
unfolding resolver
begin_retrieval-late_example =
    begin_retrieval-late disk_system film_codecs resolver "eve" 0 (0, 1 ∷ []) overwrite film_chunk
      reader refl refl (λ x. refl) answers_film
