-- ===== src/Intercom/Network.antt =====
-- What a client of the file system sees of the others: a hash table and chunkservers, with the
-- connections of intercom/user_harmony.hpp to them. One connection runs after another; when they are
-- made is in Transfers.
pub mod Transfers
pub mod Told
pub mod Latest
pub mod Unreached
use colony_fs.Base.{ℕ, String, List, [], Option, none, some, ite}
use colony_fs.Base.Key.{String-discrete}
use colony_fs.Base.Outcome.{
  Outcome, ok, raise, blocked, undefined, Action, ◌>>=◌, ◌>>◌, continue, pure,
}
use colony_fs.Storage.Metadata.{Metadata}
use colony_fs.Storage.Chunk.{Chunk}
use colony_fs.Storage.FileSystem.{FileSystem}
use colony_fs.Storage.Util.{Store}
use colony_fs.Intercom.Client.{Resolver, init_connection}
use colony_fs.Intercom.Chunkserver.{
  Codecs, Reply, sent, exited, serve, deposit_request, retrieve_request, receive_data,
}

-- `T` is what the server of the hash table keeps; each host name has a chunkserver.
pub record Network (T : Type 0) (fs : FileSystem) : Type 0 where
  pub table : T
  pub stores : String → Store fs

-- The bytes that come back: a server that ends, or that an exception ends, sends nothing.
abbrev pub answer : Outcome Reply → List ℕ
answer (ok (sent bytes)) = bytes
answer r = []

module _ {T E : Type 0} (fs : FileSystem) (codecs : Codecs)
    (resolver : Resolver E (Network T fs)) where
  -- What the chunkserver makes of the bytes, if there is a connection. All addresses of a host are
  -- those of one chunkserver.
  unfoldable pub exchange : Option E → String → List ℕ → Action (Network T fs) (List ℕ)
  unfolding serve
  exchange none hostname bytes n = (ok [], n)
  exchange (some e) hostname bytes n =
      let (r, s) = serve fs codecs bytes (n.stores hostname) in
      (ok (answer r), record n { stores = λ h. ite (String-discrete hostname h) s (n.stores h) })

  -- `init_connection` with a handler that sends the bytes.
  unfoldable pub connection : String → List ℕ → Action (Network T fs) (List ℕ)
  unfolding init_connection exchange
  connection hostname bytes = do e ← init_connection resolver hostname; exchange e hostname bytes

  -- What a deposit of a chunk comes to, up to `end_deposit`.
  unfoldable pub deposit_at : String → Chunk → Action (Network T fs) (Unit {0})
  unfolding connection deposit_request
  deposit_at hostname c = do connection hostname (deposit_request codecs c); pure tt

  -- What a retrieval into a chunk comes to, up to `end_retrieve`.
  unfoldable pub retrieve_at : String → Chunk → Action (Network T fs) Chunk
  unfolding connection retrieve_request receive_data
  retrieve_at hostname c = do
    bytes ← connection hostname (retrieve_request codecs c.metadata)
    pure (receive_data codecs bytes c)
