-- ===== src/Intercom/Client.antt =====
-- intercom/client_mt.hpp: how a client reaches a host, over the resolver and the sockets of
-- boost::asio as a parameter.
use colony_fs.Base.{
  String, Bool, true, false, List, [], ◌∷◌, Option, none, some, ◌≡◌, refl, inl, inr, Bool-cases,
  if◌then◌else◌,
}
use colony_fs.Base.Outcome.{Outcome, ok, Action, and_then}

-- `resolve` gives the addresses of a host, one or more, or throws; `accepts` tells whether a
-- connection to an address ends without an error. `N` is what is beyond the socket.
pub record Resolver (E N : Type 0) : Type 0 where
  pub resolve : String → Outcome (E × List E)
  pub accepts : E → N → Bool

-- The end of an `async_connect` to an address, without an error or with one: the address whose
-- connection the caller's handler gets. It gets none when the last address fails.
unfoldable pub handle_connect : {E : Type 0} → (E → Bool) → Bool → E → List E → Option E
handle_connect accepts true e rest = some e
handle_connect accepts false e [] = none
handle_connect accepts false e (x ∷ rest) = handle_connect accepts (accepts x) x rest

unfoldable pub init_connection : {E N : Type 0} → Resolver E N → String → Action N (Option E)
unfolding handle_connect
init_connection r hostname n = (
  and_then (r.resolve hostname)
      (λ (e, rest). ok (handle_connect (λ x. r.accepts x n) (r.accepts e n) e rest)),
  n,
)

-- The first address that accepts.
abbrev pub first_accepting : {E : Type 0} → (E → Bool) → List E → Option E
first_accepting accepts [] = none
first_accepting accepts (e ∷ rest) = if accepts e then some e else first_accepting accepts rest

handle_connect-first :
    {E : Type 0} (accepts : E → Bool) (e : E) (rest : List E)
    → handle_connect accepts (accepts e) e rest ≡ first_accepting accepts (e ∷ rest)
unfolding handle_connect
handle_connect-first accepts e [] = elim (Bool-cases (accepts e)) [
  | inl accepted ↦ rw (accepted, handle_connect) refl
  | inr refused ↦ rw (refused, handle_connect) refl
]
handle_connect-first accepts e (x ∷ rest) =
    let later = handle_connect-first accepts x rest in
    elim (Bool-cases (accepts e)) [
      | inl accepted ↦ rw (accepted, handle_connect) refl
      | inr refused ↦ rw (refused, handle_connect) later
    ]

module _ {E N : Type 0} (r : Resolver E N) (hostname : String) (n : N) where
  -- A connection is made.
  abbrev pub Reached : Type 0
  Reached = (e : E) × (init_connection r hostname n ≡ (ok (some e), n))

  -- None is made, and the caller's handler is not called.
  abbrev pub Unreached : Type 0
  Unreached = init_connection r hostname n ≡ (ok none, n)

  -- A client is connected to the first address that accepts, and to none exactly if all refuse.
  pub init_connection-first :
      (e : E) (rest : List E)
      → r.resolve hostname ≡ ok (e, rest)
      → init_connection r hostname n ≡ (ok (first_accepting (λ x. r.accepts x n) (e ∷ rest)), n)
  unfolding init_connection
  init_connection-first e rest found =
      rw (found, handle_connect-first (λ x. r.accepts x n) e rest) refl
