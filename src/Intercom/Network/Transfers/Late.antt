-- ===== src/Intercom/Network/Transfers/Late.antt =====
-- A transfer of intercom/user_harmony.hpp that ends after the client has written.
use colony_fs.Base.{ℕ, String, List, [], ◌∷◌, ◌≡◌, refl, ◌∙◌, ap, arith}
use colony_fs.Base.Outcome.{Outcome, ok, continue, modify}
use colony_fs.Storage.Chunk.{Chunk}
use colony_fs.Storage.FileSystem.{FileSystem}
use colony_fs.Intercom.Client.{Resolver}
use colony_fs.Intercom.Chunkserver.{Codecs}
use colony_fs.Intercom.Network.{Network, retrieve_at}
use colony_fs.Intercom.Network.Transfers.{
  retrieval, Client, set_object, begin_retrieval, complete, Step, completes,
}
use colony_fs.Intercom.Network.Transfers.Done.{retrieves, complete-now}

module _ {T E : Type 0} (fs : FileSystem) (codecs : Codecs)
    (resolver : Resolver E (Network T fs)) where
  retrieved :
      (hostname : String) (p : ℕ) (d : Chunk) (r : Outcome Chunk × Network T fs) (c : Client T E fs)
      → r.0 ≡ ok d
      → (let (o, n) = r in
          continue o (λ y. modify (set_object fs codecs resolver p y)) (record c { network = n }))
        ≡ (ok tt, set_object fs codecs resolver p d (record c { network = r.1 }))
  retrieved hostname p d r c e =
      ap
        (λ o.
          continue o (λ y. modify (set_object fs codecs resolver p y)) (record c { network = r.1 }))
        e

  -- A retrieval returns before the chunk has come, with the object as it was: when the client then
  -- writes the object, and keeps its name, the pending transfer replaces what was written by the
  -- chunk that the host answers with.
  pub begin_retrieval-late :
      (hostname : String) (p : ℕ) (a : E × List E) (f : Chunk → Chunk) (d : Chunk)
      (c : Client T E fs)
      → resolver.resolve hostname ≡ ok a
      → c.pending ≡ []
      → ((x : Chunk) → (f x).metadata ≡ x.metadata)
      → ((x : Chunk)
          → x.metadata ≡ (c.objects p).metadata
          → (retrieve_at fs codecs resolver hostname x c.network).0 ≡ ok d)
      → (u : Client T E fs) × (t : Client T E fs) × (begin_retrieval fs codecs resolver hostname p c
          ≡ (ok tt, u))
        × (u.objects ≡ c.objects)
        × Step fs codecs resolver (set_object fs codecs resolver p (f (u.objects p)) u) t
        × (t.objects p ≡ d)
        × (t.pending ≡ [])
  unfolding begin_retrieval
  begin_retrieval-late hostname p a f d c found idle keeps answers =
      let u : Client T E fs = record c {
        pending = retrieval hostname a (c.objects p).metadata p ∷ [];
      } in
      let v : Client T E fs = record (set_object fs codecs resolver p (f (c.objects p)) u) {
        pending = [];
      } in
      let same : v.objects p ≡ f (c.objects p) = ground arith in
      let name = ap (λ x. x.metadata) same ∙ keeps (c.objects p) in
      let n = (retrieve_at fs codecs resolver hostname (v.objects p) c.network).1 in
      let t : Client T E fs = set_object fs codecs resolver p d (record v { network = n }) in
      let done : complete fs codecs resolver (retrieval hostname a (c.objects p).metadata p) v
          ≡ (ok tt, t) =
        complete-now fs codecs resolver (retrieves hostname p) a c.objects v found name
        ∙ retrieved hostname p d (retrieve_at fs codecs resolver hostname (v.objects p) c.network) v
            (answers (v.objects p) name) in
      (
        u,
        t,
        rw (found, idle) refl,
        refl,
        completes 0 (retrieval hostname a (c.objects p).metadata p) t refl done,
        ground arith,
        refl,
      )
