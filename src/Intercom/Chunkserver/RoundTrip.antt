-- ===== src/Intercom/Chunkserver/RoundTrip.antt =====
-- A chunk goes over the network to a chunkserver and comes back.
use mathlib.Core.List.{append-nil}
use colony_fs.Base.{
  ℕ, ◌<◌, ◌^◌, List, [], ◌++◌, Option, none, some, ◌≡◌, sym, ◌∙◌, ap, arith, length,
}
use colony_fs.Base.Outcome.{Outcome, ok, pure, bind_ok}
use colony_fs.Storage.Metadata.{Metadata}
use colony_fs.Storage.Chunk.{Chunk}
use colony_fs.Storage.FileSystem.{FileSystem}
use colony_fs.Storage.Util.{
  Store, deposit_chunk, retrieve_chunk_of, retrieve_chunk, representation, read_file,
}
use colony_fs.Storage.Util.RoundTrip.{retrieve_chunk-deposit_chunk}
use colony_fs.Intercom.Framing.{Codec, async_write, async_read}
use colony_fs.Intercom.Framing.RoundTrip.{async_read-async_write, async_write-some}
use colony_fs.Intercom.Chunkserver.{
  Codecs, sent, deposit_command, retrieve_command, or_nothing, reply_with, serve, process_cmd,
  display_data, send_data, deposit_request, retrieve_request, receive_data,
}

-- The message fits its header, and the archive reads back what it wrote.
abbrev pub IsReadable : {A : Type 0} → Codec A → A → Type 0
IsReadable codec t = (length (codec.encode t) < 2 ^ 32) × (codec.decode (codec.encode t) ≡ some t)

-- A readable message, followed by others.
read-short :
    {A : Type 0} (codec : Codec A) (t : A) (rest : List ℕ)
    → IsReadable codec t
    → async_read codec (or_nothing (async_write codec t) ++ rest) ≡ some (t, rest)
read-short codec t rest (w, back) =
    let e = async_write-some codec t w in
    rw e (async_read-async_write codec t _ rest (omega (arith, w)) e back)

read-last :
    {A : Type 0} (codec : Codec A) (t : A)
    → IsReadable codec t
    → async_read codec (or_nothing (async_write codec t)) ≡ some (t, [])
read-last codec t w =
    ap (async_read codec) (sym (append-nil (or_nothing (async_write codec t))))
    ∙ read-short codec t [] w

module _ (fs : FileSystem) (codecs : Codecs) where
  pub serve-deposit_request :
      (c : Chunk) (s s' : Store fs)
      → IsReadable codecs.commands deposit_command
      → IsReadable codecs.chunks c
      → deposit_chunk fs c s ≡ (ok tt, s')
      → serve fs codecs (deposit_request codecs c) s ≡ (ok (sent []), s')
  unfolding serve deposit_request
  serve-deposit_request c s s' wd wc stored =
      ap (λ (x : Option (ℕ × List ℕ)). process_cmd fs codecs x s)
        (read-short codecs.commands deposit_command (or_nothing (async_write codecs.chunks c)) wd)
      ∙ ap (λ (x : Option (Chunk × List ℕ)). display_data fs codecs x s)
          (read-last codecs.chunks c wc)
      ∙ bind_ok (deposit_chunk fs c) (λ _. pure (sent [])) s s' tt stored

  -- What a request for a chunk leads to, whether the chunk is there or not.
  pub serve-retrieve_any :
      (m : Metadata) (s s' : Store fs) (r : Outcome Chunk)
      → IsReadable codecs.commands retrieve_command
      → IsReadable codecs.names m
      → retrieve_chunk fs m.uid m.cuid s ≡ (r, s')
      → serve fs codecs (retrieve_request codecs m) s
        ≡ reply_with r (λ d. sent (or_nothing (async_write codecs.chunks d))) s'
  unfolding serve retrieve_request retrieve_chunk_of
  serve-retrieve_any m s s' r wr wn there =
      ap (λ (x : Option (ℕ × List ℕ)). process_cmd fs codecs x s)
        (read-short codecs.commands retrieve_command (or_nothing (async_write codecs.names m)) wr)
      ∙ ap (λ (x : Option (Metadata × List ℕ)). send_data fs codecs x s)
          (read-last codecs.names m wn)
      ∙ ap
          (λ (x : Outcome Chunk × Store fs).
            reply_with x.0 (λ d. sent (or_nothing (async_write codecs.chunks d))) x.1)
          there

  pub receive_data-reply :
      (c old : Chunk)
      → IsReadable codecs.chunks c
      → receive_data codecs (or_nothing (async_write codecs.chunks c)) old ≡ c
  unfolding receive_data
  receive_data-reply c old wc =
      ap (λ (x : Option (Chunk × List ℕ)). elim x [ none ↦ old | some y ↦ y.0 ])
        (read-last codecs.chunks c wc)

  -- A chunk that a client sends to a chunkserver is stored, and a client that asks for it later
  -- gets it back: if the messages have fewer than 2^32 bytes and the archives read them back,
  -- storing the chunk ends without an exception, and its file is then read whole with its bytes.
  pub serve-requests :
      (c old : Chunk) (s s' : Store fs)
      → IsReadable codecs.commands deposit_command
      → IsReadable codecs.commands retrieve_command
      → IsReadable codecs.chunks c
      → IsReadable codecs.names c.metadata
      → deposit_chunk fs c s ≡ (ok tt, s')
      → read_file fs (representation fs c.metadata s) s'.disk ≡ ok c.bytes
      → (serve fs codecs (deposit_request codecs c) s ≡ (ok (sent []), s'))
        × ((bytes : List ℕ) × (serve fs codecs (retrieve_request codecs c.metadata) s'
              ≡ (ok (sent bytes), s'))
            × (receive_data codecs bytes old ≡ c))
  serve-requests c old s s' wd wr wc wn stored opened = (
    serve-deposit_request c s s' wd wc stored,
    (
      or_nothing (async_write codecs.chunks c),
      serve-retrieve_any c.metadata s' s' (ok c) wr wn
          (retrieve_chunk-deposit_chunk fs c s s' stored opened),
      receive_data-reply c old wc,
    ),
  )
