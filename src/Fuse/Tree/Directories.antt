-- ===== src/Fuse/Tree/Directories.antt =====
-- What a directory that was made looks like to the other handlers.
use colony_fs.Base.{
  ℕ, String, true, none, some, [], ◌∷◌, ◌≡◌, ◌≢◌, refl, ◌∙◌, ap, arith, not, ◌==◌, if◌then◌else◌,
}
use colony_fs.Base.Key.{string_key}
use colony_fs.Base.Outcome.{Outcome, ok, Action, ◌>>=◌, ◌>>◌, pure, require, bind_ok}
use colony_fs.Cache.Front.{entry_key}
use colony_fs.Cache.Sound.{IsSound}
use colony_fs.Cache.View.{view}
use colony_fs.Dht.Values.{Value}
use colony_fs.Fuse.Attribute.{Attribute, is_directory, push_back}
use colony_fs.Fuse.State.{Env, State, validate_path, on_lookup, catch_lookup, lookup, get_mapped}
use colony_fs.Fuse.Tree.{mkdir, register, readdir, getattr, directory, success, enotdir, enoent}
use colony_fs.Fuse.Update.{Attributes, IsKeyed, over, current, update_lem, update_then, lookup_lem}

module _ {W : Type 0} (policy : Attributes W) where
  abbrev pub named : String → Attribute → Attribute
  named leaf a = record a { list = push_back a.list leaf }

  -- What `mkdir` leaves in the sink.
  pub record Made (env : Env) (full : String) (mode : ℕ) (s s' : State W) : Type 0 where
    pub sound : IsSound policy s'.metadata
    pub made :
        view s'.metadata (entry_key policy full)
        ≡ some (over (directory policy env mode) (current policy full s))
    pub listed :
        view s'.metadata (entry_key policy (env.parent_path full))
        ≡ some (over (named (env.filename full)) (current policy (env.parent_path full) s))
    pub others :
        (j : String)
        → entry_key policy full ≢ j
        → entry_key policy (env.parent_path full) ≢ j
        → view s'.metadata j ≡ view s.metadata j
    pub chunks : s'.chunks ≡ s.chunks

  -- On a sound sink, `mkdir` of a name of at most 255 bytes succeeds: the path is a new directory
  -- of the user (its list stays), its name stands last in its parent's list, and no other
  -- attribute and no chunk changes.
  pub mkdir_lem :
      (env : Env) (full : String) (mode : ℕ) (s : State W)
      → IsKeyed policy
      → IsSound policy s.metadata
      → validate_path (env.filename full) ≡ true
      → entry_key policy full ≢ entry_key policy (env.parent_path full)
      → ((mkdir policy env full mode s).0 ≡ ok success)
        × Made env full mode s (mkdir policy env full mode s).1
  unfolding mkdir register
  mkdir_lem env full mode s keyed sound short apart =
      let branch = env.parent_path full in
      let (s1, e1, i1, v1, _, c1) =
        update_lem policy full (directory policy env mode) s keyed sound in
      let (s2, e2, i2, v2, _, c2) =
        update_lem policy branch (named (env.filename full)) s1 keyed i1 in
      let ran : mkdir policy env full mode s ≡ (ok success, s2) = rw short (
        update_then policy full (directory policy env mode)
          (register policy branch (env.filename full) >> pure success) s s1 e1
        ∙ rw e2 refl) in
      rw ran (
        refl,
        record {
          sound = i2;
          made = ground (arith, v1 (entry_key policy full), v2 (entry_key policy full));
          listed = ground (arith, v2 (entry_key policy branch), v1 (entry_key policy branch));
          others = λ j a b. ground (arith, v1 j, v2 j);
          chunks = c2 ∙ c1;
        },
      )

  -- What a handler under `catch (lookup_e&)` makes of a value that the sink has.
  read_found :
      {B : Type 0} (full : String) (v : Value Attribute) (s : State W)
      (body : Attribute → Action (State W) B) (handler : Action (State W) B) (b : B)
      → IsSound policy s.metadata
      → view s.metadata (entry_key policy full) ≡ some v
      → ((s1 : State W) → body v.mapped s1 ≡ (ok b, s1))
      → (catch_lookup (lookup policy full >>= λ q. get_mapped q >>= body) handler s).0 ≡ ok b
  read_found {B = B} full v s body handler b sound there ends =
      let (q, s1, e, g, _, _) = lookup_lem policy full v s sound there in
      ap (λ (x : Outcome B × State W). (on_lookup x.0 handler x.1).0)
        (bind_ok (lookup policy full) (λ q. get_mapped q >>= body) s s1 q e
          ∙ bind_ok (get_mapped q) body s1 s1 v.mapped g
          ∙ ends s1)

  -- After `mkdir` on a sound sink, `readdir` of the parent, where that is a directory, lists what
  -- it listed before and then the new name.
  pub readdir-mkdir :
      (env : Env) (full : String) (mode : ℕ) (s : State W)
      → IsKeyed policy
      → IsSound policy s.metadata
      → validate_path (env.filename full) ≡ true
      → entry_key policy full ≢ entry_key policy (env.parent_path full)
      → is_directory (current policy (env.parent_path full) s).mapped ≡ true
      → (readdir policy (env.parent_path full) (mkdir policy env full mode s).1).0
        ≡ ok (
          success,
          "."
              ∷ ".."
              ∷ push_back (current policy (env.parent_path full) s).mapped.list (env.filename full),
        )
  unfolding readdir
  readdir-mkdir env full mode s keyed sound short apart dir =
      let (_, m) = mkdir_lem env full mode s keyed sound short apart in
      let branch = env.parent_path full in
      read_found branch (over (named (env.filename full)) (current policy branch s))
        (mkdir policy env full mode s).1
        (λ a. if is_directory a then pure (success, "." ∷ ".." ∷ a.list) else pure (enotdir, []))
        (pure (enoent, [])) _ m.sound m.listed (λ s1. ground arith)

  -- After `mkdir` on a sound sink, `getattr` of the path returns the new directory's attribute.
  pub getattr-mkdir :
      (env : Env) (full : String) (mode : ℕ) (s : State W)
      → IsKeyed policy
      → IsSound policy s.metadata
      → validate_path (env.filename full) ≡ true
      → entry_key policy full ≢ entry_key policy (env.parent_path full)
      → (getattr policy env full (mkdir policy env full mode s).1).0
        ≡ ok (success, some (directory policy env mode (current policy full s).mapped).stbuf)
  unfolding getattr
  getattr-mkdir env full mode s keyed sound short apart =
      let (_, m) = mkdir_lem env full mode s keyed sound short apart in
      rw short (
        read_found full (over (directory policy env mode) (current policy full s))
          (mkdir policy env full mode s).1
          (λ a. require (not (a.stbuf.st_nlink == 0)) >> pure (success, some a.stbuf))
          (pure (enoent, none)) _ m.sound m.made (λ s1. refl))
