-- ===== src/Tests/Storage/Intercom.antt =====
-- Messages and a chunkserver at concrete inputs.
use colony_fs.Base.{ℕ, take, ◌↔◌, List, [], ◌∷◌, ◌++◌, Option, none, some, ◌≡◌, refl, arith}
use colony_fs.Base.Outcome.{ok}
use colony_fs.Intercom.Framing.{Codec, digits, header, async_write, async_read}
use colony_fs.Intercom.Framing.RoundTrip.{async_read-async_write}
use colony_fs.Intercom.Framing.Short.{async_read-take}
use colony_fs.Intercom.Chunkserver.Exit.{serve-exited}
use colony_fs.Intercom.Chunkserver.{
  Codecs, sent, exited, heartbeat_command, serve, deposit_request, retrieve_request, receive_data,
}
use colony_fs.Storage.Metadata.{get_key}
use colony_fs.Storage.Chunk.{Chunk}
use colony_fs.Storage.Util.{Store, deposit_chunk, representation, make_parent, read_file}
use colony_fs.Storage.Util.History.{latest, deposits, AllStored}
use colony_fs.Intercom.Service.{accept_all}
use colony_fs.Intercom.Service.Latest.{or_kept, accept_all-latest}
use colony_fs.Base.{map}
use colony_fs.Base.Map.{find, insert}
use colony_fs.Base.Key.{String-discrete}
use colony_fs.Tests.Disk.{disk_system}
use colony_fs.Tests.Storage.{
  film, song_chunk, film_chunk, new_store, film_store, film_deposited, film_reads,
}

-- One byte for a number.
abbrev pub first_byte : List ℕ → Option ℕ
first_byte [] = none
first_byte (b ∷ bs) = some b

abbrev pub number_codec : Codec ℕ
number_codec = record { encode = λ n. n ∷ []; decode = first_byte }

-- Names and chunks of the film.
abbrev pub film_codecs : Codecs
film_codecs = record {
  commands = number_codec;
  chunks = record {
    encode = λ c. c.bytes;
    decode = λ bs. some (record { metadata = film; bytes = bs });
  };
  names = record { encode = λ m. 0 ∷ []; decode = λ bs. some film };
}

abbrev five : List ℕ
five = 32 ∷ 32 ∷ 32 ∷ 32 ∷ 32 ∷ 32 ∷ 32 ∷ 49 ∷ 5 ∷ []

five_written : async_write number_codec 5 ≡ some five
unfolding async_write header digits
five_written = refl

async_read-async_write_example : async_read number_codec (five ++ (9 ∷ [])) ≡ some (5, 9 ∷ [])
async_read-async_write_example =
    async_read-async_write number_codec 5 five (9 ∷ []) (omega arith) five_written refl

async_read-take_example : async_read number_codec (take 4 five) ≡ none
async_read-take_example =
    async_read-take number_codec 5 five 4 (omega arith) five_written (omega arith)

abbrev heartbeat : List ℕ
heartbeat = 32 ∷ 32 ∷ 32 ∷ 32 ∷ 32 ∷ 32 ∷ 32 ∷ 49 ∷ 16 ∷ []

serve-exited_example :
    (serve disk_system film_codecs heartbeat film_store ≡ (ok exited, film_store)) ↔ (
      ((rest : List ℕ) × (async_read number_codec heartbeat ≡ some (heartbeat_command, rest)))
      × (film_store ≡ film_store))
serve-exited_example = serve-exited disk_system film_codecs heartbeat film_store film_store

abbrev remake : Chunk
remake = record { metadata = film; bytes = 5 ∷ 6 ∷ [] }

unfoldable remake_store : Store disk_system
unfolding deposit_chunk film_store
remake_store = (deposit_chunk disk_system remake film_store).1

remake_deposited : deposit_chunk disk_system remake film_store ≡ (ok tt, remake_store)
unfolding remake_store make_parent disk_system new_store film_store
remake_deposited = refl

remake_reads :
    read_file disk_system (representation disk_system film film_store) remake_store.disk
    ≡ ok (5 ∷ 6 ∷ [])
unfolding disk_system read_file representation remake_store film_store deposit_chunk make_parent
    new_store find String-discrete insert
remake_reads = refl

films_stored : AllStored disk_system (film_chunk ∷ remake ∷ []) new_store
unfolding film_store remake_store
films_stored = (film_deposited, film_reads, (remake_deposited, remake_reads, tt))

accept_all-latest_example :
    (bytes : List ℕ) × (accept_all disk_system film_codecs
        (map (deposit_request film_codecs) (film_chunk ∷ remake ∷ [])
          ++ (retrieve_request film_codecs film ∷ []))
        new_store
      ≡ (
        ok (sent [] ∷ sent [] ∷ sent bytes ∷ []),
        (deposits disk_system (film_chunk ∷ remake ∷ []) new_store).1,
      ))
    × (receive_data film_codecs bytes song_chunk
        ≡ or_kept disk_system film_codecs
            (latest (get_key film) (film_chunk ∷ remake ∷ []))
            song_chunk)
unfolding new_store
accept_all-latest_example =
    accept_all-latest disk_system film_codecs film (film_chunk ∷ remake ∷ []) song_chunk new_store
      refl ((omega arith), refl) ((omega arith), refl)
      (((omega arith), refl), (((omega arith), refl), tt)) ((omega arith), refl) films_stored
      ((λ differ. absurd (differ refl)), ((λ differ. absurd (differ refl)), tt))
