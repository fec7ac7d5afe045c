-- ===== src/Tests/Fuse/Archives.antt =====
-- An archive for attributes: a number is as many ones and a zero, a name's letters follow a one
-- each.
use Prim.Native.Char.{Char, code}
use colony_fs.Base.{ℕ, zero, suc, ◌==◌, String, List, [], ◌∷◌, ◌≡◌, refl, ◌∙◌, ap, if◌then◌else◌}
use colony_fs.Base.Int.{ℤ, pos, negsuc}
use colony_fs.Base.Outcome.{
  Outcome, ok, raise, archive_exception, and_then, Action, ◌>>=◌, ◌>>◌, pure, bind_ok,
}
use colony_fs.Dht.Values.{Archive}
use colony_fs.Fuse.Attribute.{Attribute, Stat}

abbrev write_number : ℕ → String → String
write_number zero r = String.◌∷◌ "0" r
write_number (suc n) r = String.◌∷◌ "1" (write_number n r)

abbrev read_number : Action String ℕ
read_number String.[] = (raise archive_exception, String.[])
read_number (String.◌∷◌ c s) =
    let (n, r) = read_number s in
    if code c == 48 then (ok 0, s) else (and_then n (λ m. ok (suc m)), r)

read_number-write : (n : ℕ) (r : String) → read_number (write_number n r) ≡ (ok n, r)
read_number-write zero r = refl
read_number-write (suc n) r = rw (read_number-write n r) refl

abbrev write_letters : String → String → String
write_letters String.[] r = r
write_letters (String.◌∷◌ c s) r = String.◌∷◌ "1" (String.◌∷◌ c (write_letters s r))

abbrev write_names : List String → String → String
write_names [] r = String.◌∷◌ "0" r
write_names (x ∷ xs) r = String.◌∷◌ "2" (write_letters x (write_names xs r))

abbrev with_letter : Char → String × List String → String × List String
with_letter c (x, xs) = (String.◌∷◌ c x, xs)

abbrev next_name : String × List String → String × List String
next_name (x, xs) = (String.[], x ∷ xs)

-- The letters up to the next name, and the names after them.
abbrev read_names : Action String (String × List String)
read_names String.[] = (raise archive_exception, String.[])
read_names (String.◌∷◌ b String.[]) =
    if code b == 48 then (ok (String.[], []), String.[]) else (raise archive_exception, String.[])
read_names (String.◌∷◌ b (String.◌∷◌ c s)) =
    let (n, r) = read_names s in
    let (m, q) = read_names (String.◌∷◌ c s) in
    if code b == 48
    then (ok (String.[], []), String.◌∷◌ c s)
    else if code b == 49
    then (and_then n (λ x. ok (with_letter c x)), r)
    else (and_then m (λ x. ok (next_name x)), q)

read_names-letters :
    (x r s : String) (ys : List String)
    → read_names r ≡ (ok (String.[], ys), s)
    → read_names (write_letters x r) ≡ (ok (x, ys), s)
read_names-letters String.[] r s ys e = e
read_names-letters (String.◌∷◌ c x) r s ys e = rw (read_names-letters x r s ys e) refl

read_names-next :
    (t s x : String) (ys : List String)
    → read_names t ≡ (ok (x, ys), s)
    → read_names (String.◌∷◌ "2" t) ≡ (ok (String.[], x ∷ ys), s)
read_names-next String.[] s x ys e = cc
read_names-next (String.◌∷◌ c t) s x ys e = rw e refl

read_names-write :
    (xs : List String) (r : String)
    → read_names (write_names xs (String.◌∷◌ "." r)) ≡ (ok (String.[], xs), String.◌∷◌ "." r)
read_names-write [] r = refl
read_names-write (x ∷ xs) r =
    read_names-next (write_letters x (write_names xs (String.◌∷◌ "." r))) (String.◌∷◌ "." r) x xs (
      read_names-letters x (write_names xs (String.◌∷◌ "." r)) (String.◌∷◌ "." r) xs
        (read_names-write xs r))

abbrev write_signed : ℤ → String → String
write_signed (pos n) r = write_number 0 (write_number n r)
write_signed (negsuc n) r = write_number 1 (write_number n r)

abbrev signed : ℕ → ℕ → ℤ
signed zero n = pos n
signed (suc k) n = negsuc n

abbrev read_signed : Action String ℤ
read_signed = do k ← read_number; n ← read_number; pure (signed k n)

read_signed-write : (i : ℤ) (r : String) → read_signed (write_signed i r) ≡ (ok i, r)
read_signed-write (pos n) r = rw (read_number-write n r) refl
read_signed-write (negsuc n) r = rw (read_number-write n r) refl

abbrev write_stat : Stat → String
write_stat t = write_number t.st_mode (
    write_number t.st_nlink (
      write_number t.st_uid (
        write_number t.st_gid (
          write_signed t.st_size (
            write_number t.st_blksize (
              write_number t.st_atim_sec
                (write_number t.st_mtim_sec (write_number t.st_mtim_nsec String.[]))))))))

abbrev read_stat : Action String Stat
read_stat = do
  mode ← read_number
  nlink ← read_number
  uid ← read_number
  gid ← read_number
  size ← read_signed
  blksize ← read_number
  atime ← read_number
  mtime ← read_number
  nsec ← read_number
  pure (record {
    st_mode = mode;
    st_nlink = nlink;
    st_uid = uid;
    st_gid = gid;
    st_size = size;
    st_blksize = blksize;
    st_atim_sec = atime;
    st_mtim_sec = mtime;
    st_mtim_nsec = nsec;
  })

-- A number that is read goes to what comes after it.
then_number :
    {A : Type 0} (n : ℕ) (f : ℕ → Action String A) (r : String)
    → (read_number >>= f) (write_number n r) ≡ f n r
then_number n f r = bind_ok read_number f (write_number n r) r n (read_number-write n r)

then_signed :
    {A : Type 0} (i : ℤ) (f : ℤ → Action String A) (r : String)
    → (read_signed >>= f) (write_signed i r) ≡ f i r
then_signed i f r = bind_ok read_signed f (write_signed i r) r i (read_signed-write i r)

read_stat-write : (t : Stat) → read_stat (write_stat t) ≡ (ok t, String.[])
read_stat-write t =
    then_number t.st_mode _ _
    ∙ then_number t.st_nlink _ _
    ∙ then_number t.st_uid _ _
    ∙ then_number t.st_gid _ _
    ∙ then_signed t.st_size _ _
    ∙ then_number t.st_blksize _ _
    ∙ then_number t.st_atim_sec _ _
    ∙ then_number t.st_mtim_sec _ _
    ∙ then_number t.st_mtim_nsec _ _

abbrev write_attribute : Attribute → String
write_attribute a = write_names a.list (String.◌∷◌ "." (write_stat a.stbuf))

-- The mark between the names and the numbers.
abbrev drop_mark : Action String (Unit {0})
drop_mark String.[] = (raise archive_exception, String.[])
drop_mark (String.◌∷◌ c s) = (ok tt, s)

abbrev read_attribute : Action String Attribute
read_attribute = do
  names ← read_names
  drop_mark
  stat ← read_stat
  pure (record { list = names.1; stbuf = stat })

pub read_attribute-write : (a : Attribute) → read_attribute (write_attribute a) ≡ (ok a, String.[])
read_attribute-write a =
    rw (read_names-write a.list (write_stat a.stbuf)) (rw (read_stat-write a.stbuf) refl)

abbrev pub attributes : Archive Attribute
attributes = record {
  write = write_attribute;
  read = λ s. (read_attribute s).0;
  read-write = λ a. ap (λ (x : Outcome Attribute × String). x.0) (read_attribute-write a);
}
