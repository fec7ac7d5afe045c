-- ===== src/Intercom/Network/Told.antt =====
-- What a flush and a read of the chunk policy leave pending, and whom they ask.
use colony_fs.Base.{ℕ, suc, String, List, [], ◌∷◌, some, ◌≡◌, refl, sym, ◌∙◌, ap, get_elem?}
use colony_fs.Base.Int.{ℤ}
use colony_fs.Base.Outcome.{ok, bind_ok}
use Prim.Native.String.{◌++◌ as join}
use colony_fs.Storage.Metadata.{Metadata}
use colony_fs.Storage.Chunk.{Chunk}
use colony_fs.Storage.FileSystem.{FileSystem}
use colony_fs.Dht.Values.{
  Archive, Instruction, Value, chunk_value, chunk_instruction, of_instruction, new_pointer,
  set_mapped,
}
use colony_fs.Dht.Harmony.{Server, get_pair, set_pair}
use colony_fs.Dht.Harmony.Table.{Table}
use colony_fs.Dht.Harmony.Untouched.{get_pair-Keeps, set_pair-Keeps}
use colony_fs.Dht.Policies.{get_cs, chunk_argument, read_chunk, flush_chunk}
use colony_fs.Intercom.Client.{Resolver}
use colony_fs.Intercom.Chunkserver.{Codecs}
use colony_fs.Intercom.Chunkserver.Swarm.{get_pair-set_pair, get_pair-same}
use colony_fs.Intercom.Network.{Network}
use colony_fs.Intercom.Network.Transfers.{
  Client, retrieval, deposit, put_table, shared, user_harmony, begin_retrieval, begin_deposit,
}

module _ {T E : Type 0} (fs : FileSystem) (codecs : Codecs) (resolver : Resolver E (Network T fs))
    (server : Server T) (table : Table server) where
  shared-Table : Table (shared {E = E} fs server)
  shared-Table = record {
    lookup = λ c k. table.lookup c.network.table k;
    read_reply =
        λ k c. let (t, e, f) = table.read_reply k c.network.table in (put_table t c, rw e refl, f);
    write_reply = λ k v c.
        let (t, e, f) = table.write_reply k v c.network.table in (put_table t c, rw e refl, f);
  }

  -- Only the table is not as before.
  abbrev TableOnly : Client T E fs → Client T E fs → Type 0
  TableOnly c d = (t : T) × (d ≡ put_table t c)

  module _ (instructions : Archive Instruction) (text : Archive String) (decimal : ℤ → String) where
    -- Which chunkserver the hash table is told.
    abbrev told : String → Chunk → Value String
    told host c = record {
      instruction = record { kind = chunk_instruction; argument = join (decimal c.cuid) c.uid };
      mapped = host;
    }

    -- The hash table names the host for the chunk's name.
    abbrev pub Names : ℕ → String → Chunk → Client T E fs → Type 0
    Names m host x c =
        (get_pair (shared fs server) (suc m) (chunk_value text) instructions (told "" x) c).0
        ≡ ok (told host x)

    pub Names-same :
        (m : ℕ) (host : String) (x : Chunk) (c d : Client T E fs)
        → d.network.table ≡ c.network.table
        → Names m host x c
        → Names m host x d
    unfolding shared-Table
    Names-same m host x c d same names =
        get_pair-same (shared fs server) shared-Table instructions (chunk_value text) m (told "" x)
          c d (λ j. ap (λ t. table.lookup t j) same)
        ∙ names

    -- A flush returns with the deposit pending, and the hash table names the host.
    pub flush_chunk-begun :
        (flushing : List String → Client T E fs → ℕ) (n m : ℕ) (servers : List String)
        (host : String) (a : E × List E) (p : ℕ) (old : Chunk) (c : Client T E fs)
        → get_elem? servers (flushing servers c) ≡ some host
        → resolver.resolve host ≡ ok a
        → c.pending ≡ []
        → old.metadata ≡ (c.objects p).metadata
        → (t : T) × (flush_chunk
              (shared fs server)
              (suc n)
              instructions
              text
              decimal
              (user_harmony fs codecs resolver flushing p)
              servers
              (c.objects p)
              c
            ≡ (ok tt, record (put_table t c) { pending = deposit host a p ∷ [] }))
          × Names m host old (record (put_table t c) { pending = deposit host a p ∷ [] })
    unfolding flush_chunk get_cs begin_deposit chunk_argument of_instruction new_pointer set_mapped
        chunk_value
    flush_chunk-begun flushing n m servers host a p old c picked found idle same =
        let sv = shared {E = E} fs server in
        let peers = user_harmony fs codecs resolver flushing p in
        let x = c.objects p in
        let c1 : Client T E fs = record c { pending = deposit host a p ∷ [] } in
        let e0 : get_cs sv 0 instructions text decimal peers servers c ≡ (ok host, c) =
          rw picked refl in
        let e1 : begin_deposit fs codecs resolver host p c ≡ (ok tt, c1) = rw (found, idle) refl in
        let instruction : Metadata → Instruction =
          λ d. record { kind = chunk_instruction; argument = join (decimal d.cuid) d.uid } in
        let (set, names) =
          get_pair-set_pair sv shared-Table instructions (chunk_value text) n m (told host x)
            (told "" old) c1 (ap instruction same) in
        let c2 = (set_pair sv (suc n) (chunk_value text) instructions (told host x) c1).1 in
        let (t, kept) =
          (set_pair-Keeps (TableOnly c1) sv
              (λ q d (u, e). ((server.call q d.network.table).1, ap (put_table _) e)) (suc n)
              (chunk_value text) instructions (told host x)).after
            c1 (c.network.table, refl) in
        let there : Names m host old c2 =
          names
          ∙ ap (λ i. ok (record { instruction = i; mapped = host })) (sym (ap instruction same)) in
        (
          t,
          bind_ok (get_cs sv (suc n) instructions text decimal peers servers) _ c c host e0
              ∙ bind_ok (begin_deposit fs codecs resolver host p) _ c c1 tt e1
              ∙ ap (λ r. (r, c2)) set
              ∙ ap (λ d. (ok tt, d)) kept,
          Names-same m host old c2 (put_table t c1) (ap (λ d. d.network.table) (sym kept)) there,
        )

    -- A read returns with the object as it is, and the retrieval pending.
    pub read_chunk-begun :
        (reading : List String → Client T E fs → ℕ) (m : ℕ) (host : String) (a : E × List E) (q : ℕ)
        (c : Client T E fs)
        → Names m host (c.objects q) c
        → resolver.resolve host ≡ ok a
        → c.pending ≡ []
        → (t : T) × (read_chunk
              (shared fs server)
              (suc m)
              instructions
              text
              decimal
              (user_harmony fs codecs resolver reading q)
              (c.objects q)
              c
            ≡ (
              ok (c.objects q),
              record (put_table t c) { pending = retrieval host a (c.objects q).metadata q ∷ [] },
            ))
    unfolding read_chunk begin_retrieval chunk_argument of_instruction chunk_value
    read_chunk-begun reading m host a q c names found idle =
        let sv = shared {E = E} fs server in
        let x = c.objects q in
        let peers = user_harmony fs codecs resolver reading q in
        let c1 = (get_pair sv (suc m) (chunk_value text) instructions (told "" x) c).1 in
        let (t, kept) =
          (get_pair-Keeps (TableOnly c) sv
              (λ r d (u, e). ((server.call r d.network.table).1, ap (put_table _) e)) (suc m)
              (chunk_value text) instructions (told "" x)).after
            c (c.network.table, refl) in
        let asked : get_pair sv (suc m) (chunk_value text) instructions (told "" x) c
            ≡ (ok (told host x), put_table t c) =
          ap (λ r. (r, c1)) names ∙ ap (λ d. (ok (told host x), d)) kept in
        (
          t,
          bind_ok (get_pair sv (suc m) (chunk_value text) instructions (told "" x))
                (λ v. peers.retrieve_chunk v.mapped x) c (put_table t c) (told host x) asked
              ∙ rw (found, idle) refl,
        )
