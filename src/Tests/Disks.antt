-- ===== src/Tests/Disks.antt =====
-- A disk that is a function from paths to contents, and that behaves as files do.
use cursedelete.Base.{
  ◌≡◌, refl, sym, ap, ◌∙◌, subst, ◌≢◌, Option, none, some, [], ◌∷◌, ◌++◌, arith, if◌then◌else◌,
  eq-false, is_some, Text, FilePath, codes, text_eq, text_eq_iff, Result, ok, err,
}
use cursedelete.License.Disk.{Disk, IoError, not_found}
use cursedelete.License.Store.Atomic.{IsDisk}

abbrev pub Files : Type 0
Files = FilePath → Option Text

unfoldable pub set : FilePath → Option Text → Files → Files
set q o w p = if text_eq q p then o else w p

abbrev missing : IoError
missing = record { kind = not_found; message = codes "ENOENT" }

abbrev pub contents : Option Text → Result Text IoError
contents none = err missing
contents (some t) = ok t

abbrev append_to : FilePath → Text → Files → Option Text → Files × Result (Unit {0}) IoError
append_to q t w none = (w, err missing)
append_to q t w (some s) = (set q (some (s ++ t)) w, ok tt)

abbrev move_to : FilePath → Files → Option Text → Files × Result (Unit {0}) IoError
move_to p w none = (w, err missing)
move_to p w (some s) = (set p (some s) w, ok tt)

abbrev remove_from : FilePath → Files → Option Text → Files × Result (Unit {0}) IoError
remove_from q w none = (w, err missing)
remove_from q w (some s) = (set q none w, ok tt)

abbrev pub toy_disk : Disk
toy_disk = record {
  World = Files;
  process_id = 7;
  read_to_string = λ w p. contents (w p);
  exists = λ w p. is_some (w p);
  is_file = λ w p. is_some (w p);
  read_dir = λ w p. some (codes "/etc/l/b.license" ∷ codes "/etc/l/activation.json" ∷ []);
  create_dir_all = λ p w. (w, ok tt);
  open_file = λ q b w. (set q (some []) w, ok tt);
  restrict_to_owner = λ q w. (w, ok tt);
  write_all = λ q t w. append_to q t w (w q);
  sync_all = λ q w. (w, ok tt);
  rename = λ q p w. move_to p w (w q);
  remove_file = λ q w. remove_from q w (w q);
}

set-same : (q : FilePath) (o : Option Text) (w : Files) → set q o w q ≡ o
unfolding set
set-same q o w = rw ((text_eq_iff q q).1 refl) refl

set-other : (q p : FilePath) (o : Option Text) (w : Files) → p ≢ q → set q o w p ≡ w p
unfolding set
set-other q p o w d = rw (eq-false (text_eq q p) (λ e. d (sym ((text_eq_iff q p).0 e)))) refl

contents-ok : (o : Option Text) (t : Text) → contents o ≡ ok t → o ≡ some t
contents-ok none t h = cc
contents-ok (some s) t h = cc

pub toy_disk-IsDisk : IsDisk toy_disk
toy_disk-IsDisk = record {
  create_keeps = λ d p w t h. h;
  open_keeps = λ q b p d w t h. ap contents (set-other q p (some []) w d) ∙ h;
  restrict_keeps = λ q p w t h. h;
  write_keeps = λ q t p d w s h. append_keeps q t p w s d h (w q);
  sync_keeps = λ q p w t h. h;
  remove_keeps = λ q p d w t h. remove_from_keeps q p w t d h (w q);
  open_empty = λ w v q b h.
      subst (λ (u : Files). contents (u q) ≡ ok [])
        (ap (λ (o : Files × Result (Unit {0}) IoError). o.0) h)
        (ap contents (set-same q (some []) w));
  write_appends = λ w v q s t r h. appended w v q s t (w q) (contents-ok (w q) s r) h;
  rename_moves = λ w v q p t r h. moved w v p t (w q) (contents-ok (w q) t r) h;
  rename_fails = λ w v q p e t h r. unmoved w v p e t (w q) h r;
}
  where
    append_keeps :
        (q : FilePath) (t : Text) (p : FilePath) (w : Files) (s : Text)
        → p ≢ q
        → contents (w p) ≡ ok s
        → (o : Option Text) → contents ((append_to q t w o).0 p) ≡ ok s
    append_keeps q t p w s d h none = h
    append_keeps q t p w s d h (some u) = ap contents (set-other q p (some (u ++ t)) w d) ∙ h

    remove_from_keeps :
        (q p : FilePath) (w : Files) (s : Text)
        → p ≢ q
        → contents (w p) ≡ ok s
        → (o : Option Text) → contents ((remove_from q w o).0 p) ≡ ok s
    remove_from_keeps q p w s d h none = h
    remove_from_keeps q p w s d h (some u) = ap contents (set-other q p none w d) ∙ h

    appended :
        (w v : Files) (q : FilePath) (s t : Text) (o : Option Text)
        → o ≡ some s
        → append_to q t w o ≡ (v, ok tt)
        → contents (v q) ≡ ok (s ++ t)
    appended w v q s t none e h = cc
    appended w v q s t (some u) e h =
        subst (λ (u : Files). contents (u q) ≡ ok (s ++ t))
          (ap (λ (o : Files × Result (Unit {0}) IoError). o.0) h)
          (ap contents (set-same q (some (u ++ t)) w) ∙ ground (arith, e))

    moved :
        (w v : Files) (p : FilePath) (t : Text) (o : Option Text)
        → o ≡ some t
        → move_to p w o ≡ (v, ok tt)
        → contents (v p) ≡ ok t
    moved w v p t none e h = cc
    moved w v p t (some u) e h =
        subst (λ (u : Files). contents (u p) ≡ ok t)
          (ap (λ (o : Files × Result (Unit {0}) IoError). o.0) h)
          (ap contents (set-same p (some u) w) ∙ ground (arith, e))

    unmoved :
        (w v : Files) (p : FilePath) (e : IoError) (t : Text) (o : Option Text)
        → move_to p w o ≡ (v, err e)
        → contents (w p) ≡ ok t
        → contents (v p) ≡ ok t
    unmoved w v p e t none h r =
        subst (λ (u : Files). contents (u p) ≡ ok t)
          (ap (λ (o : Files × Result (Unit {0}) IoError). o.0) h) r
    unmoved w v p e t (some u) h r =
        absurd (ground (arith, ap (λ (o : Files × Result (Unit {0}) IoError). o.1) h))
