-- ===== src/Intercom/Network/Transfers/InOrder.antt =====
-- Transfers of intercom/user_harmony.hpp that are completed in the order in which they were begun.
use mathlib.Core.List.{append-nil, append_assoc}
use colony_fs.Base.{ℕ, String, List, [], ◌∷◌, ◌++◌, ◌≡◌, ◌≢◌, refl, sym, ◌∙◌, ap, arith}
use colony_fs.Base.Outcome.{
  Outcome, ok, raise, blocked, undefined, Action, ◌>>◌, continue, pure, modify,
}
use colony_fs.Storage.Chunk.{Chunk}
use colony_fs.Storage.FileSystem.{FileSystem}
use colony_fs.Intercom.Client.{Resolver}
use colony_fs.Intercom.Chunkserver.{Codecs}
use colony_fs.Intercom.Network.{Network, retrieve_at}
use colony_fs.Intercom.Network.Transfers.{
  PendingTransfer, Client, set_object, begin_retrieval, begin_deposit, complete_all, drain,
}
use colony_fs.Intercom.Network.Transfers.Done.{
  ClientCall, retrieves, deposits, now, begun_as, host_of, SameName, complete-now,
}

module _ {T E : Type 0} (fs : FileSystem) (codecs : Codecs)
    (resolver : Resolver E (Network T fs)) where
  abbrev one_begun : ClientCall → Action (Client T E fs) (Unit {0})
  one_begun (retrieves hostname p) = begin_retrieval fs codecs resolver hostname p
  one_begun (deposits hostname p) = begin_deposit fs codecs resolver hostname p

  abbrev pub begun : List ClientCall → Action (Client T E fs) (Unit {0})
  begun [] = pure tt
  begun (q ∷ qs) = do one_begun q; begun qs

  abbrev pub all_now : List ClientCall → Action (Client T E fs) (Unit {0})
  all_now [] = pure tt
  all_now (q ∷ qs) = do now fs codecs resolver q; all_now qs

  begun-first :
      (q : ClientCall) (qs : List ClientCall) (c c' : Client T E fs) (r : Outcome (E × List E))
      → resolver.resolve (host_of fs codecs resolver q) ≡ r
      → begun (q ∷ qs) c ≡ (ok tt, c')
      → (a : E × List E) × (resolver.resolve (host_of fs codecs resolver q) ≡ ok a)
        × (begun qs
              (record c { pending = c.pending ++ (begun_as fs codecs resolver q a c.objects ∷ []) })
            ≡ (ok tt, c'))
  unfolding begin_retrieval begin_deposit
  begun-first (retrieves hostname p) qs c c' (ok a) f e = (a, f, rw f at e)
  begun-first (deposits hostname p) qs c c' (ok a) f e = (a, f, rw f at e)
  begun-first (retrieves hostname p) qs c c' r f e =
      let g = rw f at e in let h = ap (λ (z : Outcome (Unit {0}) × Client T E fs). z.0) g in cc
  begun-first (deposits hostname p) qs c c' r f e =
      let g = rw f at e in let h = ap (λ (z : Outcome (Unit {0}) × Client T E fs). z.0) g in cc

  kept :
      (p o : ℕ) (r : Outcome Chunk × Network T fs) (c : Client T E fs)
      → o ≢ p
      → (let (e, n) = r in
            continue e
              (λ y. modify (set_object fs codecs resolver p y))
              (record c { network = n })).1.objects
          o
        ≡ c.objects o
  kept p o (ok y, n) c ne = ground arith
  kept p o (raise e, n) c ne = refl
  kept p o (blocked, n) c ne = refl
  kept p o (undefined, n) c ne = refl

  -- No retrieval of the list is into the object.
  abbrev Unasked : ℕ → List ClientCall → Type 0
  Unasked p [] = Unit {0}
  Unasked p (retrieves hostname q ∷ qs) = (q ≢ p) × Unasked p qs
  Unasked p (deposits hostname q ∷ qs) = Unasked p qs

  -- No two retrievals of the list are into one object.
  abbrev pub NoneTwice : List ClientCall → Type 0
  NoneTwice [] = Unit {0}
  NoneTwice (retrieves hostname p ∷ qs) = Unasked p qs × NoneTwice qs
  NoneTwice (deposits hostname p ∷ qs) = NoneTwice qs

  abbrev SameNames : List ClientCall → (ℕ → Chunk) → (ℕ → Chunk) → Type 0
  SameNames [] objects later = Unit {0}
  SameNames (q ∷ qs) objects later =
      SameName fs codecs resolver q objects later × SameNames qs objects later

  -- A retrieval leaves the names of the objects that no later one is into.
  SameNames-now :
      (hostname : String) (p : ℕ) (qs : List ClientCall) (objects : ℕ → Chunk) (d : Client T E fs)
      → Unasked p qs
      → SameNames qs objects d.objects
      → SameNames qs objects (now fs codecs resolver (retrieves hostname p) d).1.objects
  SameNames-now hostname p [] objects d u s = tt
  SameNames-now hostname p (retrieves host q ∷ qs) objects d (ne, u) (s, ss) = (
    ap (λ (x : Chunk). x.metadata)
          (kept p q (retrieve_at fs codecs resolver hostname (d.objects p) d.network) d ne)
        ∙ s,
    SameNames-now hostname p qs objects d u ss,
  )
  SameNames-now hostname p (deposits host q ∷ qs) objects d u (s, ss) =
      (tt, SameNames-now hostname p qs objects d u ss)

  SameNames-after :
      (q : ClientCall) (qs : List ClientCall) (objects : ℕ → Chunk) (d : Client T E fs)
      → NoneTwice (q ∷ qs)
      → SameNames qs objects d.objects
      → NoneTwice qs × SameNames qs objects (now fs codecs resolver q d).1.objects
  SameNames-after (retrieves hostname p) qs objects d (u, rest) s =
      (rest, SameNames-now hostname p qs objects d u s)
  SameNames-after (deposits hostname p) qs objects d rest s = (rest, s)

  SameNames-refl : (qs : List ClientCall) (objects : ℕ → Chunk) → SameNames qs objects objects
  SameNames-refl [] objects = tt
  SameNames-refl (retrieves hostname p ∷ qs) objects = (refl, SameNames-refl qs objects)
  SameNames-refl (deposits hostname p ∷ qs) objects = (tt, SameNames-refl qs objects)

  continue_same :
      (r : Outcome (Unit {0})) (f g : Action (Client T E fs) (Unit {0})) (c : Client T E fs)
      → f c ≡ g c
      → continue r (λ _. f) c ≡ continue r (λ _. g) c
  continue_same (ok x) f g c e = e
  continue_same (raise x) f g c e = refl
  continue_same blocked f g c e = refl
  continue_same undefined f g c e = refl

  begun-pending :
      (qs : List ClientCall) (c c' : Client T E fs)
      → begun qs c ≡ (ok tt, c')
      → (ts : List (PendingTransfer E)) × (c' ≡ record c { pending = c.pending ++ ts })
        × ((d : Client T E fs)
            → NoneTwice qs
            → SameNames qs c.objects d.objects
            → complete_all fs codecs resolver ts d ≡ all_now qs d)
  begun-pending [] c c' e = (
    [],
    rw (append-nil c.pending) (ap (λ (z : Outcome (Unit {0}) × Client T E fs). z.1) (sym e)),
    λ d once names. refl,
  )
  begun-pending (q ∷ qs) c c' e =
      let (a, found, later) =
        begun-first q qs c c' (resolver.resolve (host_of fs codecs resolver q)) refl e in
      let t = begun_as fs codecs resolver q a c.objects in
      let (ts, same, done) =
        begun-pending qs (record c { pending = c.pending ++ (t ∷ []) }) c' later in
      (
        t ∷ ts,
        rw (append_assoc c.pending (t ∷ []) ts) at same,
        λ d once (name, names).
            let (rest, names') = SameNames-after q qs c.objects d once names in
            ap
              (λ (x : Outcome (Unit {0}) × Client T E fs).
                continue x.0 (λ _. complete_all fs codecs resolver ts) x.1)
              (complete-now fs codecs resolver q a c.objects d found name)
            ∙ continue_same (now fs codecs resolver q d).0 (complete_all fs codecs resolver ts)
                (all_now qs) (now fs codecs resolver q d).1
                (done (now fs codecs resolver q d).1 rest names'),
      )

  -- Calls of retrieve_chunk and deposit_chunk that were begun while no other was pending, each of a
  -- host that resolves, and no two of them retrievals into one object, come to what they come to
  -- where each is done when it returns, once the transfers are completed in the order in which they
  -- were begun and nothing else is done meanwhile.
  pub drain-begun :
      (qs : List ClientCall) (c c' : Client T E fs)
      → c.pending ≡ []
      → NoneTwice qs
      → begun qs c ≡ (ok tt, c')
      → drain fs codecs resolver c' ≡ all_now qs c
  drain-begun qs c c' idle once e =
      let (ts, same, done) = begun-pending qs c c' e in
      let idle_client : Client T E fs = record c { pending = [] } in
      ap (drain fs codecs resolver) same
      ∙ ap (λ l. complete_all fs codecs resolver (l ++ ts) idle_client) idle
      ∙ done idle_client once (SameNames-refl qs c.objects)
      ∙ ap (λ l. all_now qs (record c { pending = l })) (sym idle)
