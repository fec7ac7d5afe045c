-- ===== src/Intercom/Service.antt =====
-- intercom/server.cpp: a chunkserver takes connections one after another. A client's connection is
-- the bytes that it sends.
pub mod Latest
use colony_fs.Base.{ℕ, List, [], ◌∷◌}
use colony_fs.Base.Outcome.{
  Outcome, ok, raise, blocked, undefined, Action, ◌>>=◌, ◌>>◌, continue, pure,
}
use colony_fs.Storage.FileSystem.{FileSystem}
use colony_fs.Storage.Util.{Store}
use colony_fs.Intercom.Chunkserver.{Codecs, Reply, sent, exited, serve}

-- The loop goes on, unless the program has ended.
abbrev pub go_on : {S : Type 0} → Reply → Action S (List Reply) → Action S (List Reply)
go_on exited rest = pure (exited ∷ [])
go_on (sent answer) rest = do rs ← rest; pure (sent answer ∷ rs)

module _ (fs : FileSystem) (codecs : Codecs) where
  -- `handle_accept` accepts the next connection, until the program ends: what each client gets.
  unfoldable pub accept_all : List (List ℕ) → Action (Store fs) (List Reply)
  unfolding serve
  accept_all [] = pure []
  accept_all (bytes ∷ more) =
      let rest = accept_all more in do r ← serve fs codecs bytes; go_on r rest
