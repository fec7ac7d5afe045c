-- ===== src/Intercom/Service/Latest.antt =====
-- A chunkserver and its clients: what is asked for is what was sent last.
use mathlib.Core.Path.{subst}
use colony_fs.Base.{
  ℕ, List, [], ◌∷◌, ◌++◌, map, Option, none, some, ◌≡◌, refl, sym, ◌∙◌, ap, ite, ◌⊎◌, inl, inr,
}
use colony_fs.Base.Key.{ChunkKey, ChunkKey-discrete}
use colony_fs.Base.Outcome.{Outcome, ok, raise, inexistent_file_e, continue, pure, bind_ok}
use colony_fs.Storage.Metadata.{Metadata, get_key}
use colony_fs.Storage.Chunk.{Chunk}
use colony_fs.Storage.Db
use colony_fs.Storage.FileSystem.{FileSystem}
use colony_fs.Storage.Util.{Store, deposit_chunk, retrieve_chunk}
use colony_fs.Storage.Util.History.{
  latest, last_of, or_else, deposits, AllStored, Apart, retrieve_chunk-deposits,
  retrieve_chunk-unchanged,
}
use colony_fs.Intercom.Framing.{async_write, async_read}
use colony_fs.Intercom.Chunkserver.{
  Codecs, Reply, sent, deposit_command, retrieve_command, or_nothing, reply_with, serve,
  deposit_request, retrieve_request, receive_data,
}
use colony_fs.Intercom.Chunkserver.RoundTrip.{
  IsReadable, serve-deposit_request, serve-retrieve_any, receive_data-reply,
}
use colony_fs.Intercom.Service.{accept_all, go_on}

last_of_cases :
    (o p : Option Chunk) (c : Chunk) → last_of o p ≡ some c → (o ≡ some c) ⊎ (p ≡ some c)
last_of_cases none p c e = inr e
last_of_cases (some d) p c e = inl e

ite-some : {P : Type 0} (d : Dec P) (a c : Chunk) → ite d (some a) none ≡ some c → a ≡ c
ite-some (yes p) a c e = cc
ite-some (no p) a c e = cc

module _ (fs : FileSystem) (codecs : Codecs) where
  -- The messages of the clients.
  abbrev pub AllReadable : List Chunk → Type 0
  AllReadable [] = Unit {0}
  AllReadable (c ∷ cs) = IsReadable codecs.chunks c × AllReadable cs

  latest-IsReadable :
      (k : ChunkKey) (cs : List Chunk) (c : Chunk)
      → AllReadable cs
      → latest k cs ≡ some c
      → IsReadable codecs.chunks c
  latest-IsReadable k [] c all e = cc
  latest-IsReadable k (d ∷ ds) c (h, hs) e =
      elim (last_of_cases (latest k ds)
        (ite (ChunkKey-discrete (get_key d.metadata) k) (some d) none) c e) [
          | inl later ↦ latest-IsReadable k ds c hs later
          | inr own ↦
              subst (IsReadable codecs.chunks)
                (ite-some (ChunkKey-discrete (get_key d.metadata) k) d c own) h
        ]

  abbrev silence : Chunk → Reply
  silence c = sent []

  -- The answers to the first connections, before those to the rest.
  abbrev after : List Chunk → Outcome (List Reply) × Store fs → Outcome (List Reply) × Store fs
  after [] x = x
  after (c ∷ cs) x = let (r, s) = after cs x in continue r (λ rs. pure (silence c ∷ rs)) s

  accept_all-deposits :
      (cs : List Chunk) (more : List (List ℕ)) (s : Store fs)
      → IsReadable codecs.commands deposit_command
      → AllReadable cs
      → AllStored fs cs s
      → accept_all fs codecs (map (deposit_request codecs) cs ++ more) s
        ≡ after cs (accept_all fs codecs more (deposits fs cs s).1)
  unfolding accept_all deposits
  accept_all-deposits [] more s wd all stored = refl
  accept_all-deposits (c ∷ cs) more s wd (h, hs) (done, opened, rest) =
      let s' = (deposit_chunk fs c s).1 in
      let first = serve-deposit_request fs codecs c s s' wd h done in
      let put = λ (x : Outcome (List Reply) × Store fs).
        continue x.0 (λ rs. pure {S = Store fs} (silence c ∷ rs)) x.1 in
      bind_ok (serve fs codecs (deposit_request codecs c))
        (λ r. go_on r (accept_all fs codecs (map (deposit_request codecs) cs ++ more))) s s'
        (sent []) first
      ∙ ap put (accept_all-deposits cs more s' wd hs rest)
      ∙ sym (
          ap (λ (x : Outcome (Unit {0}) × Store fs). put (after cs (accept_all fs codecs more x.1)))
            (bind_ok (deposit_chunk fs c) (λ _. deposits fs cs) s s' tt done))

  after-ok :
      (cs : List Chunk) (rs : List Reply) (s : Store fs)
      → after cs (ok rs, s) ≡ (ok (map silence cs ++ rs), s)
  after-ok [] rs s = refl
  after-ok (c ∷ cs) rs s =
      ap (λ (x : Outcome (List Reply) × Store fs). continue x.0 (λ xs. pure (silence c ∷ xs)) x.1)
        (after-ok cs rs s)

  abbrev pub or_kept : Option Chunk → Chunk → Chunk
  or_kept none old = old
  or_kept (some c) old = c

  -- The bytes that answer a request for a chunk.
  abbrev answer_bytes : Option Chunk → List ℕ
  answer_bytes none = []
  answer_bytes (some c) = or_nothing (async_write codecs.chunks c)

  retrieve_served :
      (m : Metadata) (s : Store fs) (o : Option Chunk)
      → IsReadable codecs.commands retrieve_command
      → IsReadable codecs.names m
      → (retrieve_chunk fs m.uid m.cuid s).0 ≡ or_else o (raise inexistent_file_e)
      → serve fs codecs (retrieve_request codecs m) s ≡ (ok (sent (answer_bytes o)), s)
  retrieve_served m s o wr wn there =
      let f = λ (d : Chunk). sent (or_nothing (async_write codecs.chunks d)) in
      let t = (retrieve_chunk fs m.uid m.cuid s).1 in
      serve-retrieve_any fs codecs m s t (or_else o (raise inexistent_file_e)) wr wn
        (ap (λ (r : Outcome Chunk). (r, t)) there)
      ∙ ap (λ (x : Store fs). reply_with (or_else o (raise inexistent_file_e)) f x)
          (retrieve_chunk-unchanged fs m s)
      ∙ by_option o
    where
      by_option :
          (p : Option Chunk)
          → reply_with
              (or_else p (raise inexistent_file_e))
              (λ d. sent (or_nothing (async_write codecs.chunks d)))
              s
            ≡ (ok (sent (answer_bytes p)), s)
      by_option none = refl
      by_option (some c) = refl

  receive_data-answer :
      (o : Option Chunk) (old : Chunk)
      → ((c : Chunk) → o ≡ some c → IsReadable codecs.chunks c)
      → receive_data codecs (answer_bytes o) old ≡ or_kept o old
  unfolding receive_data async_read
  receive_data-answer none old h = refl
  receive_data-answer (some c) old h = receive_data-reply fs codecs c old (h c refl)

  -- Clients of a chunkserver with an empty index send chunks, one connection after another, and the
  -- last client asks for a chunk. If the messages have fewer than 2^32 bytes and the archives read
  -- them back, each chunk is stored without an exception in a file that is right then read whole
  -- with the chunk's bytes, and storing other chunks leaves the file of the one that is asked for as
  -- it reads, then the first clients get nothing back, the program goes on, and the last client has
  -- the last chunk that was sent under the name, or the chunk that it had before where there was
  -- none.
  pub accept_all-latest :
      (m : Metadata) (cs : List Chunk) (old : Chunk) (s : Store fs)
      → s.database ≡ Db.empty
      → IsReadable codecs.commands deposit_command
      → IsReadable codecs.commands retrieve_command
      → AllReadable cs
      → IsReadable codecs.names m
      → AllStored fs cs s
      → Apart fs m cs s
      → (bytes : List ℕ) × (accept_all fs codecs
            (map (deposit_request codecs) cs ++ (retrieve_request codecs m ∷ []))
            s
          ≡ (ok (map (λ c. sent []) cs ++ (sent bytes ∷ [])), (deposits fs cs s).1))
        × (receive_data codecs bytes old ≡ or_kept (latest (get_key m) cs) old)
  unfolding accept_all
  accept_all-latest m cs old s new wd wr all wn stored apart =
      let o = latest (get_key m) cs in
      let s' = (deposits fs cs s).1 in
      let request = retrieve_request codecs m in
      let served =
        retrieve_served m s' o wr wn (retrieve_chunk-deposits fs m cs s new stored apart) in
      let last : accept_all fs codecs (request ∷ []) s' ≡ (ok (sent (answer_bytes o) ∷ []), s') =
        bind_ok (serve fs codecs request) (λ r. go_on r (pure [])) s' s' (sent (answer_bytes o))
          served in
      (
        answer_bytes o,
        accept_all-deposits cs (request ∷ []) s wd all stored
            ∙ ap (after cs) last
            ∙ after-ok cs (sent (answer_bytes o) ∷ []) s',
        receive_data-answer o old (λ c e. latest-IsReadable (get_key m) cs c all e),
      )
