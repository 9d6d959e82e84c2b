-- ===== src/Runner/Deliver/Puts.antt =====
-- What one upload stores, and what it leaves alone.
use cs_backup_helper.Base.{◌≡◌, ◌≢◌, refl, ◌∙◌, some, List, [], ◌∷◌, All, All-map}
use cs_backup_helper.Base.Text.{Text}
use cs_backup_helper.Base.Dict.{lookup}
use cs_backup_helper.Base.Result.{Result, ok, raised}
use cs_backup_helper.Storage.{File, Storage, IsLawful}
use cs_backup_helper.Runner.{Problem, Artifact, manifest_name}
use cs_backup_helper.Runner.Deliver.{
  data_dir, bucket, W, D, put_to, then_put, noted, put_both, upload,
}

module _ (S : Storage) where
  -- The destination holds the file under the key.
  abbrev pub Holds : W S → Text → File → D S → Type 0
  Holds w k f data_dir = lookup k (Storage.dir S w) ≡ some f
  Holds w k f (bucket b) = Storage.object S w (Storage.address S b k) ≡ some f

  -- Writing to `d` leaves `k` on `e` alone.
  abbrev pub Apart : D S → Text → D S → Text → Type 0
  Apart data_dir j data_dir k = j ≢ k
  Apart (bucket b) j (bucket c) k = Storage.address S b j ≢ Storage.address S c k
  Apart _ j _ k = Unit

  abbrev pub HasSnapshot : Artifact → File → Text → W S → D S → Type 0
  HasSnapshot artifact sidecar sid w d =
      Holds w artifact.name artifact.content d × Holds w (manifest_name sid) sidecar d

module _ (S : Storage) (L : IsLawful S) where
  put_to-Holds :
      (d : D S) (k : Text) (f : File) (w : W S)
      → (put_to S d k f w).0 ≡ ok tt
      → Holds S (put_to S d k f w).1 k f d
  put_to-Holds data_dir k f w h = L.write-file k f w h
  put_to-Holds (bucket b) k f w h = L.put-object b k f w h

  put_to-keeps :
      (d : D S) (j : Text) (g : File) (w : W S) (e : D S) (k : Text) (f : File)
      → Apart S d j e k
      → Holds S w k f e
      → Holds S (put_to S d j g w).1 k f e
  put_to-keeps data_dir j g w data_dir k f apart h = L.write-others j k g w apart ∙ h
  put_to-keeps data_dir j g w (bucket c) k f apart h = L.write-objects j g w _ ∙ h
  put_to-keeps (bucket b) j g w data_dir k f apart h = L.put-dir b j g w k ∙ h
  put_to-keeps (bucket b) j g w (bucket c) k f apart h = L.put-others b j g w _ apart ∙ h

  module _ (artifact : Artifact) (sidecar : File) (sid : Text) where
    -- The two files of a snapshot never stand in each other's way, on one destination or on two.
    abbrev pub Separate : D S → D S → Type 0
    Separate d e =
        Apart S d artifact.name e artifact.name
        × Apart S d artifact.name e (manifest_name sid)
        × Apart S d (manifest_name sid) e artifact.name
        × Apart S d (manifest_name sid) e (manifest_name sid)

    abbrev pub AllSeparate : List (D S) → Type 0
    AllSeparate [] = Unit
    AllSeparate (d ∷ ds) =
        (Apart S d (manifest_name sid) d artifact.name)
        × All (λ e. Separate e d) ds
        × AllSeparate ds

    then_put-HasSnapshot :
        (d : D S) (first : Result (Unit {0}) × W S)
        → Apart S d (manifest_name sid) d artifact.name
        → (first.0 ≡ ok tt → Holds S first.1 artifact.name artifact.content d)
        → (then_put S d (manifest_name sid) sidecar first).0 ≡ ok tt
        → HasSnapshot S artifact sidecar sid (then_put S d (manifest_name sid) sidecar first).1 d
    then_put-HasSnapshot d (ok done, w) apart held h = (
      put_to-keeps d (manifest_name sid) sidecar w d artifact.name artifact.content apart
          (held refl),
      put_to-Holds d (manifest_name sid) sidecar w h,
    )
    then_put-HasSnapshot d (raised e, w) apart held h = cc

    put_both-HasSnapshot :
        (d : D S) (w : W S)
        → Apart S d (manifest_name sid) d artifact.name
        → (put_both S d artifact sidecar sid w).0 ≡ ok tt
        → HasSnapshot S artifact sidecar sid (put_both S d artifact sidecar sid w).1 d
    unfolding put_both
    put_both-HasSnapshot d w apart h =
        let first = put_to S d artifact.name artifact.content w in
        then_put-HasSnapshot d first apart (put_to-Holds d artifact.name artifact.content w) h

    then_put-keeps :
        (d e : D S) (k : Text) (f : File) (first : Result (Unit {0}) × W S)
        → Apart S d (manifest_name sid) e k
        → Holds S first.1 k f e
        → Holds S (then_put S d (manifest_name sid) sidecar first).1 k f e
    then_put-keeps d e k f (ok done, w) apart h =
        put_to-keeps d (manifest_name sid) sidecar w e k f apart h
    then_put-keeps d e k f (raised x, w) apart h = h

    -- Uploads leave another file alone, on any destination.
    pub upload-keeps_file :
        (ds : List (D S)) (e : D S) (k : Text) (f : File) (w : W S)
        → All (λ d. Apart S d artifact.name e k × Apart S d (manifest_name sid) e k) ds
        → Holds S w k f e
        → Holds S (upload S ds artifact sidecar sid w).1 k f e
    unfolding upload
    upload-keeps_file [] e k f w a h = h
    upload-keeps_file (d ∷ ds) e k f w a h = upload-keeps_file ds e k f _ a.1 (
        then_put-keeps d e k f _ a.0.1
          (put_to-keeps d artifact.name artifact.content w e k f a.0.0 h))

    upload-keeps :
        (ds : List (D S)) (e : D S) (w : W S)
        → All (λ d. Separate d e) ds
        → HasSnapshot S artifact sidecar sid w e
        → HasSnapshot S artifact sidecar sid (upload S ds artifact sidecar sid w).1 e
    upload-keeps ds e w s h = (
      upload-keeps_file ds e artifact.name artifact.content w (All-map _ _ ds (λ d t. (t.0, t.2)) s)
          h.0,
      upload-keeps_file ds e (manifest_name sid) sidecar w (All-map _ _ ds (λ d t. (t.1, t.3)) s)
          h.1,
    )

    All-noted :
        (P : D S → Type 0) (d : D S) (r : Result (Unit {0})) (rest : List (D S) × List Problem)
        → (r ≡ ok tt → P d)
        → All P rest.0
        → All P (noted S d r rest).0
    All-noted P d (ok done) (stored, failures) h a = (h refl, a)
    All-noted P d (raised e) (stored, failures) h a = a

    pub upload-HasSnapshot :
        (ds : List (D S)) (w : W S)
        → AllSeparate ds
        → All
            (HasSnapshot S artifact sidecar sid (upload S ds artifact sidecar sid w).1)
            (upload S ds artifact sidecar sid w).0.0
    unfolding upload
    upload-HasSnapshot [] w s = tt
    upload-HasSnapshot (d ∷ ds) w s =
        let (r, w1) = put_both S d artifact sidecar sid w in
        All-noted _ d (put_both S d artifact sidecar sid w).0 _
          (λ h. upload-keeps ds d _ s.1 (put_both-HasSnapshot d w s.0 h))
          (upload-HasSnapshot ds _ s.2)
