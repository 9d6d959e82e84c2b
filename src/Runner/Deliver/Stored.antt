-- ===== src/Runner/Deliver/Stored.antt =====
-- What a delivery leaves behind: every destination that counts as having stored the snapshot
-- holds its archive and its sidecar, and a data dir that can be written takes what no other
-- destination took.
use cs_backup_helper.Base.{
  ◌≡◌, ◌≢◌, refl, subst, inl, inr, true, false, not, ◌&&◌, Bool-cases, List, [], ◌∷◌, any, is_empty,
  All, arith,
}
use cs_backup_helper.Base.Text.{Text}
use cs_backup_helper.Base.Result.{Result, ok, raised}
use cs_backup_helper.Config.{Job}
use cs_backup_helper.Storage.{File, Storage, IsLawful}
use cs_backup_helper.Runner.{Problem, Artifact, manifest_name}
use cs_backup_helper.Runner.Deliver.{
  data_dir, bucket, is_local, Delivery, W, D, then_put, noted, put_both, upload, build_destinations,
  or_default, deliver, settle,
}
use cs_backup_helper.Runner.Deliver.Puts.{HasSnapshot, AllSeparate, upload-HasSnapshot}

module _ (S : Storage) (artifact : Artifact) (sidecar : File) (sid : Text)
    (failures : List Problem) where
  destinations-settle :
      (ds : List (D S)) (u : (List (D S) × List Problem) × W S)
      → (settle S artifact sidecar sid failures ds u).0.0.destinations ≡ ds
  unfolding settle
  destinations-settle ds u = ground arith

  settle-HasSnapshot :
      (L : IsLawful S) (ds : List (D S)) (u : (List (D S) × List Problem) × W S)
      → All (HasSnapshot S artifact sidecar sid u.1) u.0.0
      → manifest_name sid ≢ artifact.name
      → All
          (HasSnapshot S artifact sidecar sid (settle S artifact sidecar sid failures ds u).1)
          (settle S artifact sidecar sid failures ds u).0.0.stored
  unfolding settle
  settle-HasSnapshot L ds ((stored, more), w) h differ =
      elim (Bool-cases (is_empty stored && not (any is_local ds))) [
        | inl e ↦
            rw e (upload-HasSnapshot S L artifact sidecar sid (data_dir ∷ []) w (differ, tt, tt))
        | inr e ↦ rw e h
      ]

  module _ (works : (k : Text) (f : File) (v : W S) → (Storage.write S k f v).0 ≡ ok tt) where
    then_put_works :
        (first : Result (Unit {0}) × W S)
        → first.0 ≡ ok tt
        → (then_put S data_dir (manifest_name sid) sidecar first).0 ≡ ok tt
    then_put_works (ok done, w) e = works (manifest_name sid) sidecar w
    then_put_works (raised x, w) e = cc

    noted-nonempty :
        (d : D S) (r : Result (Unit {0})) (rest : List (D S) × List Problem)
        → is_empty rest.0 ≡ false
        → is_empty (noted S d r rest).0 ≡ false
    noted-nonempty d (ok done) (stored, more) e = refl
    noted-nonempty d (raised x) (stored, more) e = e

    upload_works :
        (ds : List (D S)) (w : W S)
        → any is_local ds ≡ true
        → is_empty (upload S ds artifact sidecar sid w).0.0 ≡ false
    unfolding upload put_both
    upload_works [] w m = ground arith
    upload_works (data_dir ∷ ds) w m =
        let e =
          then_put_works (Storage.write S artifact.name artifact.content w)
            (works artifact.name artifact.content w) in
        rw (e, noted) refl
    upload_works (bucket b ∷ ds) w m = noted-nonempty (bucket b) _ _ (upload_works ds _ m)

    settle_works :
        (ds : List (D S)) (u : (List (D S) × List Problem) × W S)
        → (any is_local ds ≡ true → is_empty u.0.0 ≡ false)
        → is_empty (settle S artifact sidecar sid failures ds u).0.0.stored ≡ false
    unfolding settle
    settle_works ds ((stored, more), w) h = ground (arith, h, upload_works (data_dir ∷ []) w refl)

module _ (S : Storage) (job : Job) (artifact : Artifact) (sidecar : File) (sid : Text)
    (w : W S) where
  abbrev pub delivered : Delivery (Storage.Bucket S)
  delivered = (deliver S job artifact sidecar sid w).0.0

  abbrev pub world_after : W S
  world_after = (deliver S job artifact sidecar sid w).1

  -- After a delivery every destination that counts as having stored the snapshot, the data dir as
  -- a fallback included, holds both its archive and its sidecar, provided that the destinations'
  -- files do not stand in each other's way.
  pub deliver-HasSnapshot :
      (L : IsLawful S)
      → AllSeparate S L artifact sidecar sid delivered.destinations
      → manifest_name sid ≢ artifact.name
      → All (HasSnapshot S artifact sidecar sid world_after) delivered.stored
  unfolding deliver
  deliver-HasSnapshot L s differ =
      let (built, w1) = build_destinations S job.destinations w in
      let ds = or_default S built in
      settle-HasSnapshot S artifact sidecar sid built.1 L ds (upload S ds artifact sidecar sid w1)
        (upload-HasSnapshot S L artifact sidecar sid ds w1 (
          subst (AllSeparate S L artifact sidecar sid)
            (destinations-settle S artifact sidecar sid built.1 ds _) s))
        differ

  -- Whatever the destinations do, a data dir that takes every write leaves no snapshot unstored.
  pub deliver_stores :
      ((k : Text) (f : File) (v : W S) → (Storage.write S k f v).0 ≡ ok tt)
      → is_empty delivered.stored ≡ false
  unfolding deliver
  deliver_stores works =
      let (built, w1) = build_destinations S job.destinations w in
      settle_works S artifact sidecar sid built.1 works (or_default S built) _
        (upload_works S artifact sidecar sid built.1 works (or_default S built) w1)
