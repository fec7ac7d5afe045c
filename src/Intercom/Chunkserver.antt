-- ===== src/Intercom/Chunkserver.antt =====
-- intercom/chunkserver_harmony.cpp, and of intercom/user_harmony.hpp and client_mt.hpp what a
-- client sends. A connection is the bytes that the client sends and those that it gets back; the
-- handlers of one connection run one after another.
pub mod RoundTrip
pub mod Exit
pub mod Swarm
pub mod Joins
use colony_fs.Base.{ℕ, List, [], ◌∷◌, ◌++◌, Option, none, some, ◌==◌, if◌then◌else◌, String}
use colony_fs.Base.Outcome.{
  Outcome, ok, raise, inexistent_file_e, key_missing_error, Action, ◌>>=◌, ◌>>◌, continue, pure,
}
use colony_fs.Storage.Metadata.{Metadata}
use colony_fs.Storage.Chunk.{Chunk}
use colony_fs.Storage.FileSystem.{FileSystem}
use colony_fs.Storage.Util.{Store, deposit_chunk, retrieve_chunk_of}
use colony_fs.Dht.Values.{Archive, Instruction, Value, chunkserver_value, new_pointer, append}
use colony_fs.Dht.Harmony.{Server, get_pair, set_pair}
use colony_fs.Intercom.Framing.{Codec, async_write, async_read}

-- `command_t`
abbrev pub deposit_command : ℕ
deposit_command = 2

abbrev pub retrieve_command : ℕ
retrieve_command = 4

abbrev pub heartbeat_command : ℕ
heartbeat_command = 16

-- The archives of a command, a chunk, and a chunk's name.
pub record Codecs : Type 0 where
  pub commands : Codec ℕ
  pub chunks : Codec Chunk
  pub names : Codec Metadata

-- What a connection leads to: the bytes that go back, or the end of the program.
pub data Reply : Type 0 where
  sent : List ℕ → Reply
  exited : Reply

-- A message that cannot be written sends nothing.
abbrev pub or_nothing : Option (List ℕ) → List ℕ
or_nothing none = []
or_nothing (some bytes) = bytes

-- `catch (inexistent_file_e&) { return; }` round the retrieval, and what follows it.
abbrev pub reply_with : {S : Type 0} → Outcome Chunk → (Chunk → Reply) → Action S Reply
reply_with (ok c) f s = (ok (f c), s)
reply_with (raise inexistent_file_e) f s = (ok (sent []), s)
reply_with (raise e) f s = (raise e, s)
reply_with Outcome.blocked f s = (Outcome.blocked, s)
reply_with Outcome.undefined f s = (Outcome.undefined, s)

module _ (fs : FileSystem) (codecs : Codecs) where
  unfoldable pub display_data : Option (Chunk × List ℕ) → Action (Store fs) Reply
  display_data none = pure (sent [])
  display_data (some (c, rest)) = do deposit_chunk fs c; pure (sent [])

  unfoldable pub send_data : Option (Metadata × List ℕ) → Action (Store fs) Reply
  send_data none s = (ok (sent []), s)
  send_data (some (m, rest)) s =
      let (r, s') = retrieve_chunk_of fs m s in
      reply_with r (λ c. sent (or_nothing (async_write codecs.chunks c))) s'

  -- An unknown command is dropped.
  unfoldable pub process_cmd : Option (ℕ × List ℕ) → Action (Store fs) Reply
  unfolding display_data send_data
  process_cmd none = pure (sent [])
  process_cmd (some (command, rest)) =
      if command == deposit_command
      then display_data (async_read codecs.chunks rest)
      else if command == retrieve_command
      then send_data (async_read codecs.names rest)
      else if command == heartbeat_command
      then pure exited
      else pure (sent [])

  -- `handle_accept`
  unfoldable pub serve : List ℕ → Action (Store fs) Reply
  unfolding process_cmd
  serve bytes = process_cmd (async_read codecs.commands bytes)

module _ (codecs : Codecs) where
  -- `deposit_chunk` of the client: the command, and then the chunk.
  unfoldable pub deposit_request : Chunk → List ℕ
  deposit_request c =
      or_nothing (async_write codecs.commands deposit_command)
      ++ or_nothing (async_write codecs.chunks c)

  -- `retrieve_chunk` of the client: the command, and then the chunk's name.
  unfoldable pub retrieve_request : Metadata → List ℕ
  retrieve_request m =
      or_nothing (async_write codecs.commands retrieve_command)
      ++ or_nothing (async_write codecs.names m)

  -- `receive_data`: the client's chunk after the reply.
  unfoldable pub receive_data : List ℕ → Chunk → Chunk
  receive_data bytes c = elim (async_read codecs.chunks bytes) [ none ↦ c | some x ↦ x.0 ]

-- `catch (key_missing_error&) {}`
abbrev pub or_new : {A : Type 0} → Outcome A → A → Outcome A
or_new (raise key_missing_error) a = ok a
or_new r a = r

-- `init`, up to `set_prefix`: the host joins the list of its swarm.
unfoldable pub join_swarm :
    {W : Type 0}
    → Server W
    → ℕ
    → Archive Instruction
    → Archive (List String)
    → Archive ℕ
    → Archive String
    → String
    → String
    → Action W (Unit {0})
unfolding get_pair set_pair chunkserver_value new_pointer append
join_swarm server fuel instructions strings numbers text swarm hostname w =
    let derived = chunkserver_value strings numbers text in
    let info = new_pointer derived instructions swarm in
    let (r, w') = get_pair server fuel derived instructions info w in
    continue (or_new r info) (λ v. set_pair server fuel derived instructions (append hostname v)) w'
