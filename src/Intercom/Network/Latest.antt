-- ===== src/Intercom/Network/Latest.antt =====
-- A chunk goes from a cache to a chunkserver and the hash table, and comes back to any cache.
use colony_fs.Base.{ℕ, suc, String, List, [], ◌∷◌, some, ◌≡◌, refl, ◌∙◌, ap, arith, ite, get_elem?}
use colony_fs.Base.Int.{ℤ}
use colony_fs.Base.Key.{String-discrete}
use colony_fs.Base.Outcome.{Outcome, ok, pure, bind_ok}
use colony_fs.Storage.Chunk.{Chunk}
use colony_fs.Storage.FileSystem.{FileSystem}
use colony_fs.Storage.Util.{Store, deposit_chunk, representation, read_file}
use colony_fs.Dht.Values.{Archive, Instruction}
use colony_fs.Dht.Harmony.{Server}
use colony_fs.Dht.Harmony.Table.{Table}
use colony_fs.Dht.Policies.{read_chunk, flush_chunk}
use colony_fs.Intercom.Network.Told.{flush_chunk-begun, read_chunk-begun, Names-same}
use colony_fs.Intercom.Client.{Resolver, Reached, init_connection}
use colony_fs.Intercom.Chunkserver.{
  Codecs, Reply, sent, deposit_command, retrieve_command, serve, deposit_request, retrieve_request,
  receive_data,
}
use colony_fs.Intercom.Chunkserver.RoundTrip.{IsReadable, serve-requests}
use colony_fs.Intercom.Network.{Network, connection, deposit_at, retrieve_at, exchange, answer}
use colony_fs.Intercom.Network.Transfers.{
  Client, retrieval, deposit, put_table, shared, user_harmony, drain,
}
use colony_fs.Intercom.Network.Transfers.Done.{drain-deposit, drain-retrieval}

module _ {T E : Type 0} (fs : FileSystem) (codecs : Codecs)
    (resolver : Resolver E (Network T fs)) where
  exchanges :
      (host : String) (bytes : List ℕ) (n : Network T fs) (r : Outcome Reply) (s : Store fs)
      → Reached resolver host n
      → serve fs codecs bytes (n.stores host) ≡ (r, s)
      → connection fs codecs resolver host bytes n
        ≡ (ok (answer r), record n { stores = λ h. ite (String-discrete host h) s (n.stores h) })
  unfolding connection exchange
  exchanges host bytes n r s (x, reached) e =
      bind_ok (init_connection resolver host) (λ a. exchange fs codecs resolver a host bytes) n n
        (some x) reached
      ∙ rw (e, exchange) refl

  -- What a deposit at a host leaves there.
  deposit_at_lem :
      (host : String) (c : Chunk) (n : Network T fs) (s' : Store fs)
      → Reached resolver host n
      → serve fs codecs (deposit_request codecs c) (n.stores host) ≡ (ok (sent []), s')
      → (n' : Network T fs) × (deposit_at fs codecs resolver host c n ≡ (ok tt, n'))
        × (n'.stores host ≡ s')
        × (n'.table ≡ n.table)
  unfolding deposit_at
  deposit_at_lem host c n s' reached e =
      let made = exchanges host (deposit_request codecs c) n (ok (sent [])) s' reached e in
      let n' : Network T fs = record n {
        stores = λ h. ite (String-discrete host h) s' (n.stores h);
      } in
      (
        n',
        bind_ok (connection fs codecs resolver host (deposit_request codecs c)) (λ _. pure tt) n n'
            [] made,
        ground arith,
        refl,
      )

  pub retrieve_at_lem :
      (host : String) (old c : Chunk) (bytes : List ℕ) (n : Network T fs) (s : Store fs)
      → Reached resolver host n
      → n.stores host ≡ s
      → serve fs codecs (retrieve_request codecs old.metadata) s ≡ (ok (sent bytes), s)
      → receive_data codecs bytes old ≡ c
      → (retrieve_at fs codecs resolver host old n).0 ≡ ok c
  unfolding retrieve_at
  retrieve_at_lem host old c bytes n s reached there e got =
      let request = retrieve_request codecs old.metadata in
      let made = exchanges host request n (ok (sent bytes)) s reached (rw there e) in
      ap (λ (r : Outcome Chunk × Network T fs). r.0)
        (bind_ok (connection fs codecs resolver host request)
          (λ b. pure (receive_data codecs b old)) n _ bytes made)
      ∙ ap ok got

  module _ (server : Server T) (table : Table server) (instructions : Archive Instruction)
      (text : Archive String) (decimal : ℤ → String) where
    -- Over a hash table that is a table and keeps the chunkservers as they are, and where nothing
    -- is pending: OnFlush of an object, at the chunkserver that is picked, ends well, and so does
    -- its transfer. PreRead of an object of the same name then returns with that object as it was,
    -- and once its transfer has ended the object is the chunk that was flushed. This wants that the
    -- picked number is in the list, that connections to that host are made, that the messages have
    -- fewer than 2^32 bytes and are read back by the archives, that the deposit ends without an
    -- exception, and that the chunk's file is then read whole with its bytes; and that nothing else
    -- is done meanwhile.
    pub read_chunk-flush_chunk :
        (flushing reading : List String → Client T E fs → ℕ) (n m : ℕ) (servers : List String)
        (host : String) (a : E × List E) (p q : ℕ) (c : Client T E fs) (s' : Store fs)
        → get_elem? servers (flushing servers c) ≡ some host
        → resolver.resolve host ≡ ok a
        → ((n : Network T fs) → Reached resolver host n)
        → c.pending ≡ []
        → IsReadable codecs.commands deposit_command
        → IsReadable codecs.commands retrieve_command
        → IsReadable codecs.chunks (c.objects p)
        → IsReadable codecs.names (c.objects p).metadata
        → deposit_chunk fs (c.objects p) (c.network.stores host) ≡ (ok tt, s')
        → read_file fs (representation fs (c.objects p).metadata (c.network.stores host)) s'.disk
          ≡ ok (c.objects p).bytes
        → (c.objects q).metadata ≡ (c.objects p).metadata
        → let (r1, c1) =
            flush_chunk
              (shared fs server)
              (suc n)
              instructions
              text
              decimal
              (user_harmony fs codecs resolver flushing p)
              servers
              (c.objects p)
              c in
          let (r2, c2) = drain fs codecs resolver c1 in
          let (r3, c3) =
            read_chunk
              (shared fs server)
              (suc m)
              instructions
              text
              decimal
              (user_harmony fs codecs resolver reading q)
              (c2.objects q)
              c2 in
          let (r4, c4) = drain fs codecs resolver c3 in
          (r1 ≡ ok tt)
          × (r2 ≡ ok tt)
          × (r3 ≡ ok (c.objects q))
          × (c3.objects ≡ c.objects)
          × (r4 ≡ ok tt)
          × (c4.objects q ≡ c.objects p)
    read_chunk-flush_chunk flushing reading n m servers host a p q c s' picked found reached idle wd
          wr wc wn stored whole same =
        let x = c.objects p in
        let y = c.objects q in
        let (sends, (bytes, gets, got)) =
          serve-requests fs codecs x y (c.network.stores host) s' wd wr wc wn stored whole in
        let (t, ran, names) =
          flush_chunk-begun fs codecs resolver server table instructions text decimal flushing n m
            servers host a p y c picked found idle same in
        let c1 : Client T E fs = record (put_table t c) { pending = deposit host a p ∷ [] } in
        let (n2, e2, kept2, table2) =
          deposit_at_lem host x c1.network s' (reached c1.network) sends in
        let c2 : Client T E fs = record c1 { network = n2; pending = [] } in
        let sent_off = drain-deposit fs codecs resolver host a p c1 n2 found refl e2 in
        let (u, asks) =
          read_chunk-begun fs codecs resolver server table instructions text decimal reading m host
            a q c2
            (Names-same fs codecs resolver server table instructions text decimal m host y c1 c2
              table2 names)
            found refl in
        let c3 : Client T E fs = record (put_table u c2) {
          pending = retrieval host a y.metadata q ∷ [];
        } in
        let filled =
          retrieve_at_lem host y x bytes c3.network s' (reached c3.network) kept2
            (ap (λ d. serve fs codecs (retrieve_request codecs d) s') same ∙ gets) got in
        let fetched = drain-retrieval fs codecs resolver host a q c3 x found refl filled in
        rw (ran, sent_off, asks, fetched) (refl, refl, refl, refl, refl, ground arith)
