-- ===== src/Storage/Memory.antt =====
-- A storage in memory, in which every call succeeds: it keeps the laws.
use cs_backup_helper.Base.{
  ◌≡◌, ◌≢◌, refl, inl, inr, true, Option, some, none, List, [], ◌∷◌, ◌++◌, map, keep_if, All, drop,
  length, Bool-cases, arith, subst,
}
use cs_backup_helper.Base.Text.{Text, eq_iff, eq_refl, starts_with}
use cs_backup_helper.Base.Dict.{Dict, lookup, insert, erase, keys, lookup-insert, lookup-erase}
use cs_backup_helper.Base.Result.{Result, ok, raised, os_error, ok-injective}
use cs_backup_helper.Storage.{File, Storage, IsLawful}

pub record Memory : Type 0 where
  pub files : Dict File
  pub objects : Dict File

-- `exists` or an error.
abbrev found : Option File → Result File
found (some f) = ok f
found none = raised os_error

abbrev listed : Text → Text → Dict File → List Text
listed bucket prefix objects =
    map (drop (length bucket)) (keep_if (starts_with (bucket ++ prefix)) (keys objects))

-- A bucket is the prefix of its keys.
abbrev pub memory : Storage
memory = record {
  World = Memory;
  dir = λ w. w.files;
  write = λ k f w. (ok tt, record { files = insert k f w.files; objects = w.objects });
  unlink = λ k w. (ok tt, record { files = erase k w.files; objects = w.objects });
  Bucket = Text;
  address = λ b k. b ++ k;
  place = λ b. b;
  object = λ w a. lookup a w.objects;
  open_bucket = λ spec w. (ok spec.prefix, w);
  attach = λ spec w. (ok spec.prefix, w);
  put = λ b k f w. (ok tt, record { files = w.files; objects = insert (b ++ k) f w.objects });
  get = λ b k w. (found (lookup (b ++ k) w.objects), w);
  list_keys = λ b p w. (ok (listed b p w.objects), w);
  delete = λ b k w. (ok tt, record { files = w.files; objects = erase (b ++ k) w.objects });
}

inserted : (k : Text) (f : File) (d : Dict File) → lookup k (insert k f d) ≡ some f
inserted k f d = ground (arith, lookup-insert k k f d, eq_refl k)

insert-others :
    (k j : Text) (f : File) (d : Dict File) → k ≢ j → lookup j (insert k f d) ≡ lookup j d
insert-others k j f d differ = ground (arith, lookup-insert k j f d, (eq_iff k j).0)

erase-others : (k j : Text) (d : Dict File) → k ≢ j → lookup j (erase k d) ≡ lookup j d
erase-others k j d differ = ground (arith, lookup-erase k j d, (eq_iff k j).0)

erased : (k : Text) (d : Dict File) → lookup k (erase k d) ≡ none
erased k d = ground (arith, lookup-erase k k d, eq_refl k)

starts_with-drop :
    (b p key : Text) → starts_with (b ++ p) key ≡ true → starts_with p (drop (length b) key) ≡ true
unfolding starts_with
starts_with-drop [] p key h = h
starts_with-drop (c ∷ b) p [] h = ground arith
starts_with-drop (c ∷ b) p (a ∷ key) h = ground (arith, starts_with-drop b p key)

All-listed :
    (b p : Text) (ks : List Text)
    → All
        (λ key. starts_with p key ≡ true)
        (map (drop (length b)) (keep_if (starts_with (b ++ p)) ks))
All-listed b p [] = tt
All-listed b p (key ∷ ks) = elim (Bool-cases (starts_with (b ++ p) key)) [
  | inl e ↦ rw e (starts_with-drop b p key e, All-listed b p ks)
  | inr e ↦ rw e (All-listed b p ks)
]

pub memory-IsLawful : IsLawful memory
memory-IsLawful = record {
  write-file = λ k f w h. inserted k f w.files;
  write-others = λ k j f w. insert-others k j f w.files;
  write-objects = λ k f w a. refl;
  unlink-others = λ k j w. erase-others k j w.files;
  unlink-file = λ k w. inr (erased k w.files);
  unlink-objects = λ k w a. refl;
  open_bucket-dir = λ spec w j. refl;
  put-object = λ b k f w h. inserted (b ++ k) f w.objects;
  put-others = λ b k f w a. insert-others (b ++ k) a f w.objects;
  put-dir = λ b k f w j. refl;
  list_keys-dir = λ b p w j. refl;
  list_keys-objects = λ b p w a. refl;
  list_keys-prefix = λ b p w found h.
      subst (All (λ key. starts_with p key ≡ true)) (ok-injective _ found h)
        (All-listed b p (keys w.objects));
  delete-others = λ b k w a. erase-others (b ++ k) a w.objects;
  delete-dir = λ b k w j. refl;
}
