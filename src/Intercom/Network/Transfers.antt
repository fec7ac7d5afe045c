-- ===== src/Intercom/Network/Transfers.antt =====
-- The transfers of intercom/user_harmony.hpp as the asynchronous operations that they are: a call
-- resolves the host and returns, and a thread of the io_service makes the connection later. A
-- retrieval has copied the chunk's name when it was called; what else is sent or received is that of
-- the object that the call's pointer denotes by then.
pub mod Done
pub mod InOrder
pub mod Late
use colony_fs.Base.{
  ℕ, zero, suc, String, List, [], ◌∷◌, ◌++◌, Option, none, some, ite, ℕ_discrete, get_elem?, ◌≡◌,
}
use colony_fs.Base.Outcome.{
  Outcome, ok, raise, blocked, undefined, Action, and_then, ◌>>=◌, ◌>>◌, continue, pure, gets,
  modify,
}
use colony_fs.Storage.Metadata.{Metadata}
use colony_fs.Storage.Chunk.{Chunk}
use colony_fs.Storage.FileSystem.{FileSystem}
use colony_fs.Dht.Harmony.{Server}
use colony_fs.Dht.Policies.{Peers}
use colony_fs.Intercom.Client.{Resolver, handle_connect}
use colony_fs.Intercom.Chunkserver.{Codecs, deposit_request, retrieve_request, receive_data}
use colony_fs.Intercom.Network.{Network, exchange}

-- A transfer that was begun: the host, its addresses, the name that a retrieval asks for, and the
-- object.
pub data PendingTransfer (E : Type 0) : Type 0 where
  retrieval : String → E × List E → Metadata → ℕ → PendingTransfer E
  deposit : String → E × List E → ℕ → PendingTransfer E

abbrev pub remove_at : {A : Type 0} → ℕ → List A → List A
remove_at i [] = []
remove_at zero (x ∷ xs) = xs
remove_at (suc i) (x ∷ xs) = x ∷ remove_at i xs

-- `objects` are the chunks of the client, by the names of their pointers.
pub record Client (T E : Type 0) (fs : FileSystem) : Type 0 where
  pub network : Network T fs
  pub objects : ℕ → Chunk
  pub pending : List (PendingTransfer E)

-- What the server of the hash table keeps, replaced.
abbrev pub put_table : {T E : Type 0} {fs : FileSystem} → T → Client T E fs → Client T E fs
put_table t c = record c { network = record c.network { table = t } }

-- The hash table does not touch the chunkservers, nor the client.
abbrev pub shared : {T E : Type 0} (fs : FileSystem) → Server T → Server (Client T E fs)
shared fs server = record {
  hash = server.hash;
  call = λ request c. let (r, t) = server.call request c.network.table in (r, put_table t c);
}

module _ {T E : Type 0} (fs : FileSystem) (codecs : Codecs)
    (resolver : Resolver E (Network T fs)) where
  abbrev begin :
      (E × List E → PendingTransfer E) → Outcome (E × List E) → Action (Client T E fs) (Unit {0})
  begin f (ok a) c = (ok tt, record c { pending = c.pending ++ (f a ∷ []) })
  begin f (raise e) c = (raise e, c)
  begin f blocked c = (blocked, c)
  begin f undefined c = (undefined, c)

  unfoldable pub begin_retrieval : String → ℕ → Action (Client T E fs) (Unit {0})
  begin_retrieval hostname p c =
      begin (λ a. retrieval hostname a (c.objects p).metadata p) (resolver.resolve hostname) c

  unfoldable pub begin_deposit : String → ℕ → Action (Client T E fs) (Unit {0})
  begin_deposit hostname p = begin (λ a. deposit hostname a p) (resolver.resolve hostname)

  abbrev pub in_network : {A : Type 0} → Action (Network T fs) A → Action (Client T E fs) A
  in_network act c = let (r, n) = act c.network in (r, record c { network = n })

  abbrev pub set_object : ℕ → Chunk → Client T E fs → Client T E fs
  set_object p x c = record c { objects = λ q. ite (ℕ_discrete p q) x (c.objects q) }

  -- The addresses are tried, and the handler is called with what connects.
  unfoldable pub transfer : String → E × List E → List ℕ → Action (Network T fs) (List ℕ)
  unfolding exchange handle_connect
  transfer hostname (e, rest) bytes n =
      exchange fs codecs resolver
        (handle_connect (λ x. resolver.accepts x n) (resolver.accepts e n) e rest) hostname bytes n

  -- What a thread of the io_service does with a transfer.
  unfoldable pub complete : PendingTransfer E → Action (Client T E fs) (Unit {0})
  unfolding transfer deposit_request retrieve_request receive_data
  complete (retrieval hostname a m p) = do
    bytes ← in_network (transfer hostname a (retrieve_request codecs m))
    modify (λ c. set_object p (receive_data codecs bytes (c.objects p)) c)
  complete (deposit hostname a p) = do
    x ← gets (λ c. c.objects p)
    in_network (transfer hostname a (deposit_request codecs x))
    pure tt

  abbrev pub complete_all : List (PendingTransfer E) → Action (Client T E fs) (Unit {0})
  complete_all [] = pure tt
  complete_all (t ∷ ts) = do complete t; complete_all ts

  -- Every pending transfer is completed, the oldest first.
  abbrev pub drain : Action (Client T E fs) (Unit {0})
  drain c = complete_all c.pending (record c { pending = [] })

  -- What the cache policies call. The chunk that they hand over is that of the object `p`, and a
  -- retrieval leaves it as it is for now. The random numbers are those that the caller gives.
  abbrev pub user_harmony : (List String → Client T E fs → ℕ) → ℕ → Peers (Client T E fs)
  user_harmony random p = record {
    random_index = λ servers c. (ok (random servers c), c);
    retrieve_chunk = λ hostname x. (do begin_retrieval hostname p; pure x);
    deposit_chunk = λ hostname x. begin_deposit hostname p;
  }

  -- One step of the client's threads: a call, a write through a pointer, or a pending transfer.
  pub data Step (c : Client T E fs) : Client T E fs → Type 0 where
    retrieves :
        (hostname : String) (p : ℕ) (c' : Client T E fs)
        → begin_retrieval hostname p c ≡ (ok tt, c')
        → Step c c'
    deposits :
        (hostname : String) (p : ℕ) (c' : Client T E fs)
        → begin_deposit hostname p c ≡ (ok tt, c')
        → Step c c'
    writes : (p : ℕ) (f : Chunk → Chunk) → Step c (set_object p (f (c.objects p)) c)
    completes :
        (i : ℕ) (t : PendingTransfer E) (c' : Client T E fs)
        → get_elem? c.pending i ≡ some t
        → complete t (record c { pending = remove_at i c.pending }) ≡ (ok tt, c')
        → Step c c'
