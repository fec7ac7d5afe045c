-- ===== src/Intercom/Chunkserver/Exit.antt =====
-- When a chunkserver ends.
use colony_fs.Base.{
  ℕ, List, [], ◌==◌, ==_iff, Option, none, some, ◌≡◌, ◌≢◌, ◌↔◌, refl, ap, Bool-cases, inl, inr,
  arith,
}
use colony_fs.Base.Outcome.{Outcome, ok, raise, continue, pure}
use colony_fs.Storage.Metadata.{Metadata}
use colony_fs.Storage.Chunk.{Chunk}
use colony_fs.Storage.FileSystem.{FileSystem}
use colony_fs.Storage.Util.{Store, deposit_chunk, retrieve_chunk_of}
use colony_fs.Intercom.Framing.{async_write, async_read}
use colony_fs.Intercom.Chunkserver.{
  Codecs, Reply, sent, exited, deposit_command, retrieve_command, heartbeat_command, or_nothing,
  reply_with, serve, process_cmd, display_data, send_data,
}

nothing_sent :
    {S : Type 0} (r : Outcome (Unit {0})) (s s' : S)
    → continue r (λ _. pure (sent [])) s ≢ (ok exited, s')
nothing_sent (ok a) s s' e = cc
nothing_sent (raise x) s s' e = cc
nothing_sent Outcome.blocked s s' e = cc
nothing_sent Outcome.undefined s s' e = cc

reply_stays :
    {S : Type 0} (r : Outcome Chunk) (f : Chunk → List ℕ) (s s' : S)
    → reply_with r (λ c. sent (f c)) s ≢ (ok exited, s')
reply_stays (ok a) f s s' e = cc
reply_stays (raise x) f s s' e = ground arith
reply_stays Outcome.blocked f s s' e = cc
reply_stays Outcome.undefined f s s' e = cc

module _ (fs : FileSystem) (codecs : Codecs) where
  display_data_stays :
      (x : Option (Chunk × List ℕ)) (s s' : Store fs) → display_data fs codecs x s ≢ (ok exited, s')
  unfolding display_data
  display_data_stays none s s' e = cc
  display_data_stays (some (c, rest)) s s' e =
      let (r, s1) = deposit_chunk fs c s in nothing_sent r s1 s' e

  send_data_stays :
      (x : Option (Metadata × List ℕ)) (s s' : Store fs) → send_data fs codecs x s ≢ (ok exited, s')
  unfolding send_data
  send_data_stays none s s' e = cc
  send_data_stays (some (m, rest)) s s' e =
      let (r, s1) = retrieve_chunk_of fs m s in
      reply_stays r (λ c. or_nothing (async_write codecs.chunks c)) s1 s' e

  process_cmd-exited :
      (x : Option (ℕ × List ℕ)) (s s' : Store fs)
      → process_cmd fs codecs x s ≡ (ok exited, s')
      → ((rest : List ℕ) × (x ≡ some (heartbeat_command, rest))) × (s ≡ s')
  unfolding process_cmd
  process_cmd-exited none s s' e = cc
  process_cmd-exited (some (command, rest)) s s' e =
      elim (Bool-cases (command == deposit_command)) [
        | inl d ↦ absurd (display_data_stays (async_read codecs.chunks rest) s s' (rw d at e))
        | inr d ↦ elim (Bool-cases (command == retrieve_command)) [
          | inl r ↦ absurd (send_data_stays (async_read codecs.names rest) s s' (rw (d, r) at e))
          | inr r ↦ elim (Bool-cases (command == heartbeat_command)) [
            | inl h ↦
                let f : pure exited s ≡ (ok exited, s') = rw (d, r, h) at e in
                let same : command ≡ heartbeat_command = (==_iff command heartbeat_command).0 h in
                ((rest, rw same refl), ap (λ (y : Outcome Reply × Store fs). y.1) f)
            | inr h ↦ let f : pure (sent []) s ≡ (ok exited, s') = rw (d, r, h) at e in cc
          ]
        ]
      ]

  -- The handlers of a chunkserver call exit exactly for a client that sends the command HEARTBEAT,
  -- and its chunks stay as they are then. (An exception that nobody catches, or a failed assertion,
  -- ends the program too, but not by exit.)
  pub serve-exited :
      (bytes : List ℕ) (s s' : Store fs)
      → (serve fs codecs bytes s ≡ (ok exited, s')) ↔ (
          ((rest : List ℕ) × (async_read codecs.commands bytes ≡ some (heartbeat_command, rest)))
          × (s ≡ s'))
  unfolding serve process_cmd
  serve-exited bytes s s' = (
    process_cmd-exited (async_read codecs.commands bytes) s s',
    λ ((rest, e), same). rw (e, same) refl,
  )
