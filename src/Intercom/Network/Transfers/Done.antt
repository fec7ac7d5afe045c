-- ===== src/Intercom/Network/Transfers/Done.antt =====
-- What a pending transfer of intercom/user_harmony.hpp comes to when it is completed: what the call
-- would have come to, had it been done when it returned.
use colony_fs.Base.{ℕ, String, List, [], ◌∷◌, ◌≡◌, refl, sym, ◌∙◌, ap}
use colony_fs.Base.Outcome.{
  Outcome, ok, raise, blocked, undefined, Action, ◌>>=◌, continue, pure, gets, modify, bind_ok,
}
use colony_fs.Storage.Metadata.{Metadata}
use colony_fs.Storage.Chunk.{Chunk}
use colony_fs.Storage.FileSystem.{FileSystem}
use colony_fs.Intercom.Client.{Resolver, init_connection}
use colony_fs.Intercom.Chunkserver.{Codecs, retrieve_request, deposit_request, receive_data}
use colony_fs.Intercom.Network.{Network, connection, deposit_at, retrieve_at}
use colony_fs.Intercom.Network.Transfers.{
  PendingTransfer, retrieval, deposit, Client, in_network, set_object, transfer, complete,
  complete_all, drain,
}

pub data ClientCall : Type 0 where
  retrieves deposits : String → ℕ → ClientCall

module _ {T E : Type 0} (fs : FileSystem) (codecs : Codecs)
    (resolver : Resolver E (Network T fs)) where
  -- The same call, done when it returns.
  abbrev pub now : ClientCall → Action (Client T E fs) (Unit {0})
  now (retrieves hostname p) = do
    x ← gets (λ c. c.objects p)
    y ← in_network fs codecs resolver (retrieve_at fs codecs resolver hostname x)
    modify (set_object fs codecs resolver p y)
  now (deposits hostname p) = do
    x ← gets (λ c. c.objects p)
    in_network fs codecs resolver (deposit_at fs codecs resolver hostname x)

  connection-transfer :
      (hostname : String) (a : E × List E) (bytes : List ℕ) (n : Network T fs)
      → resolver.resolve hostname ≡ ok a
      → connection fs codecs resolver hostname bytes n
        ≡ transfer fs codecs resolver hostname a bytes n
  unfolding connection transfer init_connection
  connection-transfer hostname (e, rest) bytes n found = rw found refl

  -- The transfer that a call begins.
  abbrev pub begun_as : ClientCall → E × List E → (ℕ → Chunk) → PendingTransfer E
  begun_as (retrieves hostname p) a objects = retrieval hostname a (objects p).metadata p
  begun_as (deposits hostname p) a objects = deposit hostname a p

  abbrev pub host_of : ClientCall → String
  host_of (retrieves hostname p) = hostname
  host_of (deposits hostname p) = hostname

  received :
      (p : ℕ) (r : Outcome (List ℕ) × Network T fs) (c : Client T E fs)
      → (let (o, n) = r in
          continue o
            (λ b.
              modify (λ d. set_object fs codecs resolver p (receive_data codecs b (d.objects p)) d))
            (record c { network = n }))
        ≡ (let (o, n) =
              (let (y, m) = r in continue y (λ b. pure (receive_data codecs b (c.objects p))) m) in
            continue o (λ y. modify (set_object fs codecs resolver p y)) (record c { network = n }))
  received p (ok b, n) c = refl
  received p (raise e, n) c = refl
  received p (blocked, n) c = refl
  received p (undefined, n) c = refl

  sent_off :
      (r : Outcome (List ℕ) × Network T fs) (c : Client T E fs)
      → (let (o, n) = r in continue o (λ b. pure tt) (record c { network = n })) ≡ (
          let (o, n) = (let (y, m) = r in continue y (λ b. pure tt) m) in
          (o, record c { network = n }))
  sent_off (ok b, n) c = refl
  sent_off (raise e, n) c = refl
  sent_off (blocked, n) c = refl
  sent_off (undefined, n) c = refl

  -- The object of a retrieval still has the name that was asked for.
  abbrev pub SameName : ClientCall → (ℕ → Chunk) → (ℕ → Chunk) → Type 0
  SameName (retrieves hostname p) objects later = (later p).metadata ≡ (objects p).metadata
  SameName (deposits hostname p) objects later = Unit {0}

  pub complete-now :
      (q : ClientCall) (a : E × List E) (objects : ℕ → Chunk) (c : Client T E fs)
      → resolver.resolve (host_of q) ≡ ok a
      → SameName q objects c.objects
      → complete fs codecs resolver (begun_as q a objects) c ≡ now q c
  unfolding complete retrieve_at deposit_at
  complete-now (retrieves hostname p) a objects c found same =
      let request = retrieve_request codecs (c.objects p).metadata in
      ap (λ (m : Metadata). complete fs codecs resolver (retrieval hostname a m p) c) (sym same)
      ∙ rw (connection-transfer hostname a request c.network found)
          (received p (transfer fs codecs resolver hostname a request c.network) c)
  complete-now (deposits hostname p) a objects c found same =
      let request = deposit_request codecs (c.objects p) in
      rw (connection-transfer hostname a request c.network found)
        (sent_off (transfer fs codecs resolver hostname a request c.network) c)

  -- One transfer that waits, completed.
  pub drain-deposit :
      (hostname : String) (a : E × List E) (p : ℕ) (c : Client T E fs) (n : Network T fs)
      → resolver.resolve hostname ≡ ok a
      → c.pending ≡ deposit hostname a p ∷ []
      → deposit_at fs codecs resolver hostname (c.objects p) c.network ≡ (ok tt, n)
      → drain fs codecs resolver c ≡ (ok tt, record c { network = n; pending = [] })
  drain-deposit hostname a p c n found waits e =
      let idle_client : Client T E fs = record c { pending = [] } in
      let done : complete fs codecs resolver (deposit hostname a p) idle_client
          ≡ (ok tt, record idle_client { network = n }) =
        complete-now (deposits hostname p) a c.objects idle_client found tt
        ∙ ap
            (λ (x : Outcome (Unit {0}) × Network T fs). (x.0, record idle_client { network = x.1 }))
            e in
      ap (λ l. complete_all fs codecs resolver l idle_client) waits
      ∙ bind_ok (complete fs codecs resolver (deposit hostname a p)) (λ _. pure tt) idle_client
          (record idle_client { network = n }) tt done

  pub drain-retrieval :
      (hostname : String) (a : E × List E) (p : ℕ) (c : Client T E fs) (d : Chunk)
      → resolver.resolve hostname ≡ ok a
      → c.pending ≡ retrieval hostname a (c.objects p).metadata p ∷ []
      → (retrieve_at fs codecs resolver hostname (c.objects p) c.network).0 ≡ ok d
      → drain fs codecs resolver c ≡ (
        ok tt,
        set_object fs codecs resolver p d (record c {
          network = (retrieve_at fs codecs resolver hostname (c.objects p) c.network).1;
          pending = [];
        }),
      )
  drain-retrieval hostname a p c d found waits e =
      let idle_client : Client T E fs = record c { pending = [] } in
      let r = retrieve_at fs codecs resolver hostname (c.objects p) c.network in
      let left = set_object fs codecs resolver p d (record idle_client { network = r.1 }) in
      let t : PendingTransfer E = retrieval hostname a (c.objects p).metadata p in
      let done : complete fs codecs resolver t idle_client ≡ (ok tt, left) =
        complete-now (retrieves hostname p) a c.objects idle_client found refl
        ∙ ap
            (λ o.
              continue o (λ y. modify (set_object fs codecs resolver p y))
                (record idle_client { network = r.1 }))
            e in
      ap (λ l. complete_all fs codecs resolver l idle_client) waits
      ∙ bind_ok (complete fs codecs resolver t) (λ _. pure tt) idle_client left tt done
