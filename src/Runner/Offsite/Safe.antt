-- ===== src/Runner/Offsite/Safe.antt =====
-- What a file of the data dir survives: the removal of other files and of files that every
-- off-site destination holds.
use cs_backup_helper.Base.{
  map, ◌≡◌, ◌≢◌, ◌⊎◌, refl, sym, ◌∙◌, inl, inr, Bool, true, not, ◌&&◌, Bool-cases, some, none, List,
  [], ◌∷◌, any, keep_if, All-map, any-keep_if, In-any, ◌++◌, arith,
}
use mathlib.Core.Bool.{false≢true}
use cs_backup_helper.Base.Text.{Text, text_eq, eq_iff, eq_refl, starts_with}
use cs_backup_helper.Base.Sort.{any-sort_asc}
use cs_backup_helper.Base.Dict.{Dict, lookup, keys}
use cs_backup_helper.Base.Result.{Result, ok, raised}
use cs_backup_helper.Storage.{File, Storage, IsLawful}
use cs_backup_helper.Runner.{Artifact, manifest_name, archive_suffix, manifest_suffix}
use cs_backup_helper.Runner.Deliver.{bucket, W, then_put, put_both, upload}
use cs_backup_helper.Runner.Deliver.Complete.{OnAll}
use cs_backup_helper.Runner.Offsite.{first_of, is_nested, find_artifact, Buckets}

first_of-any :
    (p : Text → Bool) (names : List Text) (name : Text)
    → first_of names ≡ some name
    → p name ≡ true
    → any p names ≡ true
first_of-any p [] name e h = cc
first_of-any p (x ∷ names) name e h = ground arith

starts_with-drop : (s p t : Text) → starts_with (s ++ p) (s ++ t) ≡ starts_with p t
unfolding starts_with
starts_with-drop [] p t = refl
starts_with-drop (a ∷ s) p t = ground (arith, starts_with-drop s p t)

-- A found archive has another name than the sidecar.
pub find_artifact-differs :
    (dir : Dict File) (sid name : Text)
    → find_artifact dir sid ≡ some name
    → manifest_name sid ≢ name
unfolding find_artifact starts_with text_eq
find_artifact-differs dir sid name e same =
    let q : Text → Bool = λ n. starts_with (sid ++ archive_suffix) n && not (is_nested n) in
    let found = first_of-any (text_eq name) _ name e (eq_refl name) in
    let kept =
      sym (any-keep_if (text_eq name) q (keys dir))
      ∙ sym (any-sort_asc (λ n. n) (text_eq name) (keep_if q (keys dir)))
      ∙ found in
    let (n, m, h) = In-any _ (keys dir) kept in
    let good : starts_with (sid ++ archive_suffix) n ≡ true = ground arith in
    let eq : name ≡ n = (eq_iff name n).0 (ground arith) in
    let t : starts_with (sid ++ archive_suffix) (sid ++ manifest_suffix) ≡ true =
      rw (same, eq) good in
    false≢true (sym (starts_with-drop sid archive_suffix manifest_suffix) ∙ t)

module _ (S : Storage) (stores : Buckets S) (k : Text) (f : File) where
  abbrev pub Remote : W S → Type 0
  Remote w = OnAll S stores w k f

  -- The file is in the data dir, or gone from it and held by every off-site destination.
  abbrev pub Safe : W S → Type 0
  Safe w = (lookup k (Storage.dir S w) ≡ some f) ⊎ ((lookup k (Storage.dir S w) ≡ none) × Remote w)

module _ (S : Storage) (L : IsLawful S) where
  pub upload-dir :
      (bs : Buckets S) (artifact : Artifact) (sidecar : File) (sid : Text) (w : W S) (k : Text)
      → lookup k (Storage.dir S (upload S (map bucket bs) artifact sidecar sid w).1)
        ≡ lookup k (Storage.dir S w)
  unfolding upload put_both
  upload-dir [] artifact sidecar sid w k = refl
  upload-dir (b ∷ bs) artifact sidecar sid w k =
      upload-dir bs artifact sidecar sid _ k
      ∙ then_put-dir b (Storage.put S b artifact.name artifact.content w)
      ∙ L.put-dir b artifact.name artifact.content w k
    where
      then_put-dir :
          (b : Storage.Bucket S) (first : Result (Unit {0}) × W S)
          → lookup k (Storage.dir S (then_put S (bucket b) (manifest_name sid) sidecar first).1)
            ≡ lookup k (Storage.dir S first.1)
      then_put-dir b (ok done, v) = L.put-dir b (manifest_name sid) sidecar v k
      then_put-dir b (raised x, v) = refl

  module _ (stores : Buckets S) (k : Text) (f : File) where
    pub unlink-Remote :
        (j : Text) (w : W S) → Remote S stores k f w → Remote S stores k f (Storage.unlink S j w).1
    unlink-Remote j w h = All-map _ _ stores (λ b e. L.unlink-objects j w _ ∙ e) h

    pub present-or-gone :
        (w : W S) (j : Text) (g : File)
        → j ≡ k
        → lookup j (Storage.dir S w) ≡ some g
        → lookup k (Storage.dir S w) ≡ none
        → ⊥
    present-or-gone w j g p here gone =
        let here_too : lookup k (Storage.dir S w) ≡ some g = rw (← p) here in cc

    pub same-content :
        (w : W S) (j : Text) (g : File)
        → j ≡ k
        → lookup j (Storage.dir S w) ≡ some g
        → lookup k (Storage.dir S w) ≡ some f
        → g ≡ f
    same-content w j g p here h =
        let here_too : lookup k (Storage.dir S w) ≡ some g = rw (← p) here in cc

    Safe-again :
        (v w : W S)
        → lookup k (Storage.dir S v) ≡ lookup k (Storage.dir S w)
        → (Remote S stores k f w → Remote S stores k f v)
        → Safe S stores k f w
        → Safe S stores k f v
    Safe-again v w e r (inl h) = inl (e ∙ h)
    Safe-again v w e r (inr (h, a)) = inr (e ∙ h, r a)

    unlink-at :
        (j : Text) (w : W S)
        → (lookup k (Storage.dir S (Storage.unlink S j w).1) ≡ lookup k (Storage.dir S w))
          ⊎ ((j ≡ k) × (lookup k (Storage.dir S (Storage.unlink S j w).1) ≡ none))
    unlink-at j w = elim (Bool-cases (text_eq k j)) [
      | inl e ↦
          let p = (eq_iff k j).0 e in
          rw p (elim (L.unlink-file j w) [ inl same ↦ inl same | inr gone ↦ inr (refl, gone) ])
      | inr e ↦ inl (L.unlink-others j k w (λ p. false≢true (sym e ∙ (eq_iff k j).1 (sym p))))
    ]

    pub unlink-Safe :
        (j : Text) (w : W S)
        → (j ≡ k → Remote S stores k f w)
        → Safe S stores k f w
        → Safe S stores k f (Storage.unlink S j w).1
    unlink-Safe j w held safe = elim (unlink-at j w) [
      | inl same ↦ Safe-again _ w same (unlink-Remote j w) safe
      | inr (p, gone) ↦ inr (gone, unlink-Remote j w (held p))
    ]
