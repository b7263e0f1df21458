-- ===== src/License/Store/Atomic.antt =====
-- A write replaces a file as a whole or leaves it as it was.
use cursedelete.Base.{
  ◌≡◌, refl, ap, subst, ◌≢◌, ◌⊎◌, inl, inr, Bool, true, false, Option, none, some, [], ◌++◌, arith,
  Text, FilePath, Result, ok, err, err-injective,
}
use cursedelete.Paths.{parent}
use cursedelete.License.Disk.{Disk, Io, IoError, after, ◌>>=◌, ◌>>◌}
use cursedelete.License.Store.{Secrecy, is_secret}
use cursedelete.License.Store.Files.{
  temporary, restrict_if, write_and_rename, clean_up, write_in, write_atomic,
}

-- What a successful chain of computations went through.
pub after-elim :
    {W A B P : Type 0} {v : W} {b : B} (r : W × Result A IoError) (k : A → Io W B)
    → after r k ≡ (v, ok b)
    → ((w : W) (a : A) → r ≡ (w, ok a) → k a w ≡ (v, ok b) → P)
    → P
after-elim (w, err e) k h use_it = absurd (ground (arith, ap (λ x. x.1) h))
after-elim (w, ok a) k h use_it = use_it w a refl h

-- A chain that failed did so in its first step or after it.
after-err :
    {W A B P : Type 0} {v : W} {e : IoError} (r : W × Result A IoError) (k : A → Io W B)
    → after r k ≡ (v, err e)
    → (r ≡ (v, err e) → P)
    → ((w : W) (a : A) → r ≡ (w, ok a) → k a w ≡ (v, err e) → P)
    → P
after-err {v = v} {e = e} (w, err f) k h first later =
    let moved : w ≡ v = ap (λ x. x.0) h in
    let same : f ≡ e = err-injective (ap (λ x. x.1) h) in first (rw moved (rw same refl))
after-err (w, ok a) k h first later = later w a refl h

module _ (D : Disk) where
  -- The computation leaves the contents of a file alone, whether it succeeds or not.
  abbrev pub Keeps : {A : Type 0} → FilePath → Io D.World A → Type 0
  Keeps p m =
      (w : D.World) (t : Text) → D.read_to_string w p ≡ ok t → D.read_to_string (m w).0 p ≡ ok t

  -- How files behave: an operation on one file leaves the others alone; a file that is opened is empty,
  -- and what is written is appended; the other operations keep the contents; a file that was
  -- renamed is found under its new name, and a rename that failed changed nothing.
  pub record IsDisk : Type 0 where
    pub create_keeps : (d p : FilePath) → Keeps p (D.create_dir_all d)
    pub open_keeps : (q : FilePath) (b : Bool) (p : FilePath) → p ≢ q → Keeps p (D.open_file q b)
    pub restrict_keeps : (q p : FilePath) → Keeps p (D.restrict_to_owner q)
    pub write_keeps : (q : FilePath) (t : Text) (p : FilePath) → p ≢ q → Keeps p (D.write_all q t)
    pub sync_keeps : (q p : FilePath) → Keeps p (D.sync_all q)
    pub remove_keeps : (q p : FilePath) → p ≢ q → Keeps p (D.remove_file q)
    pub open_empty :
        (w v : D.World) (q : FilePath) (b : Bool)
        → D.open_file q b w ≡ (v, ok tt)
        → D.read_to_string v q ≡ ok []
    pub write_appends :
        (w v : D.World) (q : FilePath) (s t : Text)
        → D.read_to_string w q ≡ ok s
        → D.write_all q t w ≡ (v, ok tt)
        → D.read_to_string v q ≡ ok (s ++ t)
    pub rename_moves :
        (w v : D.World) (q p : FilePath) (t : Text)
        → D.read_to_string w q ≡ ok t
        → D.rename q p w ≡ (v, ok tt)
        → D.read_to_string v p ≡ ok t
    pub rename_fails :
        (w v : D.World) (q p : FilePath) (e : IoError) (t : Text)
        → D.rename q p w ≡ (v, err e)
        → D.read_to_string w p ≡ ok t
        → D.read_to_string v p ≡ ok t

  module _ (x : IsDisk) where
    restrict_if-Keeps : (b : Bool) (q p : FilePath) → Keeps p (restrict_if D b q)
    restrict_if-Keeps true q p = x.restrict_keeps q p
    restrict_if-Keeps false q p = λ w t h. h

    kept :
        {A : Type 0} (p : FilePath) (m : Io D.World A) (w v : D.World) (r : Result A IoError)
        (t : Text)
        → Keeps p m
        → m w ≡ (v, r)
        → D.read_to_string w p ≡ ok t
        → D.read_to_string v p ≡ ok t
    kept p m w v r t k e h =
        subst (λ (o : D.World × Result _ IoError). D.read_to_string o.0 p ≡ ok t) e (k w t h)

    Keeps-bind :
        {A B : Type 0} (p : FilePath) (m : Io D.World A) (k : A → Io D.World B)
        → Keeps p m
        → ((a : A) → Keeps p (k a))
        → Keeps p (m >>= k)
    Keeps-bind p m k first second w t h = go (m w) (first w t h)
      where
        go :
            (o : D.World × Result _ IoError)
            → D.read_to_string o.0 p ≡ ok t
            → D.read_to_string (after o k).0 p ≡ ok t
        go (v, err e) g = g
        go (v, ok a) g = second a v t g

    module _ (q : FilePath) (t : Text) (b : Bool) where
      abbrev filled : Io D.World (Unit {0})
      filled = D.open_file q b >> restrict_if D b q >> D.write_all q t >> D.sync_all q

      filled-Keeps : (p : FilePath) → p ≢ q → Keeps p filled
      filled-Keeps p d =
          Keeps-bind p (D.open_file q b >> restrict_if D b q >> D.write_all q t) (λ _. D.sync_all q)
            (Keeps-bind p (D.open_file q b >> restrict_if D b q) (λ _. D.write_all q t)
              (Keeps-bind p (D.open_file q b) (λ _. restrict_if D b q) (x.open_keeps q b p d)
                (λ _. restrict_if-Keeps b q p))
              (λ _. x.write_keeps q t p d))
            (λ _. x.sync_keeps q p)

      -- A successful run writes the whole text.
      write_and_rename-ok :
          (p : FilePath) (w v : D.World)
          → write_and_rename D q p t b w ≡ (v, ok tt)
          → D.read_to_string v p ≡ ok t
      unfolding write_and_rename
      write_and_rename-ok p w v h = after-elim (filled w) _ h λ w4 u4 h4 renamed.
          after-elim ((D.open_file q b >> restrict_if D b q >> D.write_all q t) w) _ h4
            λ w3 u3 h3 synced.
              after-elim ((D.open_file q b >> restrict_if D b q) w) _ h3 λ w2 u2 h2 written.
                after-elim (D.open_file q b w) _ h2 λ w1 u1 opened restricted.
                  let empty =
                    kept q (restrict_if D b q) w1 w2 (ok tt) [] (restrict_if-Keeps b q q) restricted
                      (x.open_empty w w1 q b opened) in
                  let full =
                    kept q (D.sync_all q) w3 w4 (ok tt) t (x.sync_keeps q q) synced
                      (x.write_appends w2 w3 q [] t empty written) in
                  x.rename_moves w4 v q p t full renamed

      -- One that failed left the file as it was.
      write_and_rename-err :
          (p : FilePath) (w v : D.World) (e : IoError) (s : Text)
          → p ≢ q
          → write_and_rename D q p t b w ≡ (v, err e)
          → D.read_to_string w p ≡ ok s
          → D.read_to_string v p ≡ ok s
      unfolding write_and_rename
      write_and_rename-err p w v e s d h r =
          after-err (filled w) _ h
            (λ failed. kept p filled w v (err e) s (filled-Keeps p d) failed r)
            λ w4 u4 h4 failed.
              x.rename_fails w4 v q p e s failed
                (kept p filled w w4 (ok tt) s (filled-Keeps p d) h4 r)

    clean_up-ok :
        (q : FilePath) (o : D.World × Result (Unit {0}) IoError) (v : D.World)
        → clean_up D q o ≡ (v, ok tt)
        → o ≡ (v, ok tt)
    clean_up-ok q (w, ok u) v h = h
    clean_up-ok q (w, err e) v h = absurd (ground (arith, ap (λ x. x.1) h))

    clean_up-err :
        (q p : FilePath) (o : D.World × Result (Unit {0}) IoError) (v : D.World) (e : IoError)
        (s : Text)
        → p ≢ q
        → clean_up D q o ≡ (v, err e)
        → ((w : D.World) (f : IoError) → o ≡ (w, err f) → D.read_to_string w p ≡ ok s)
        → D.read_to_string v p ≡ ok s
    clean_up-err q p (w, ok u) v e s d h k = absurd (ground (arith, ap (λ x. x.1) h))
    clean_up-err q p (w, err f) v e s d h k =
        subst (λ (o : D.World). D.read_to_string o p ≡ ok s) (ap (λ x. x.0) h)
          (x.remove_keeps q p d w s (k w f refl))

    pub write_atomic-ok :
        (p : FilePath) (t : Text) (k : Secrecy) (w v : D.World)
        → write_atomic D p t k w ≡ (v, ok tt)
        → D.read_to_string v p ≡ ok t
    unfolding write_atomic
    write_atomic-ok p t k w v h = go (parent p) h
      where
        go :
            (o : Option FilePath)
            → write_in D o p t (is_secret k) w ≡ (v, ok tt)
            → D.read_to_string v p ≡ ok t
        go none h = absurd (ground (arith, ap (λ x. x.1) h))
        go (some folder) h = after-elim (D.create_dir_all folder w) _ h λ w1 u made written.
            write_and_rename-ok (temporary D folder p) t (is_secret k) p w1 v
              (clean_up-ok (temporary D folder p) _ v written)

    write_atomic-err :
        (p : FilePath) (t : Text) (k : Secrecy) (w v : D.World) (e : IoError) (s : Text)
        → ((folder : FilePath) → parent p ≡ some folder → p ≢ temporary D folder p)
        → write_atomic D p t k w ≡ (v, err e)
        → D.read_to_string w p ≡ ok s
        → D.read_to_string v p ≡ ok s
    unfolding write_atomic
    write_atomic-err p t k w v e s d h r = go (parent p) refl h
      where
        go :
            (o : Option FilePath)
            → parent p ≡ o
            → write_in D o p t (is_secret k) w ≡ (v, err e)
            → D.read_to_string v p ≡ ok s
        go none f h = subst (λ (o : D.World). D.read_to_string o p ≡ ok s) (ap (λ x. x.0) h) r
        go (some folder) f h =
            after-err (D.create_dir_all folder w) _ h
              (λ failed.
                kept p (D.create_dir_all folder) w v (err e) s (x.create_keeps folder p) failed r)
              λ w1 u made failed.
                clean_up-err (temporary D folder p) p _ v e s (d folder f) failed λ w2 g wrote.
                  write_and_rename-err (temporary D folder p) t (is_secret k) p w1 w2 g s
                    (d folder f) wrote
                    (kept p (D.create_dir_all folder) w w1 (ok tt) s (x.create_keeps folder p) made
                      r)

    -- Where the calls of the disk do what they document and the temporary file is another one, a write
    -- either succeeds, and the file holds the text, or fails, and the file holds what it held.
    pub write_atomic_all_or_nothing :
        (p : FilePath) (t : Text) (k : Secrecy) (w v : D.World) (r : Result (Unit {0}) IoError)
        → ((folder : FilePath) → parent p ≡ some folder → p ≢ temporary D folder p)
        → write_atomic D p t k w ≡ (v, r)
        → ((r ≡ ok tt) × (D.read_to_string v p ≡ ok t))
          ⊎ ((e : IoError) × (r ≡ err e)
              × ((s : Text) → D.read_to_string w p ≡ ok s → D.read_to_string v p ≡ ok s))
    write_atomic_all_or_nothing p t k w v (ok u) d h = inl (refl, write_atomic-ok p t k w v h)
    write_atomic_all_or_nothing p t k w v (err e) d h =
        inr (e, refl, λ s g. write_atomic-err p t k w v e s d h g)
