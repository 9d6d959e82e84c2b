-- ===== src/Runner/Offsite/Kept.antt =====
-- Shipping pending snapshots: a file of the data dir is given up only when every off-site
-- destination that the snapshot went to holds it.
use cs_backup_helper.Base.{
  map, ◌≡◌, ◌≢◌, ◌⊎◌, refl, sym, ◌∙◌, subst, inl, inr, Bool, true, false, not, ◌&&◌, Bool-cases,
  Option, some, none, List, [], ◌∷◌, ltb, length, is_empty, All, In, All-of_In, All-In, arith,
}
use cs_backup_helper.Base.Text.{Text}
use cs_backup_helper.Base.Dict.{lookup}
use cs_backup_helper.Config.{Job}
use cs_backup_helper.Storage.{File, marker, Storage, IsLawful}
use cs_backup_helper.Runner.{Problem, Artifact, manifest_name, marker_name}
use cs_backup_helper.Runner.Act.{continue_with-step}
use cs_backup_helper.Runner.Deliver.{bucket, W, D, upload, Delivery}
use cs_backup_helper.Runner.Deliver.Puts.{upload-keeps_file}
use cs_backup_helper.Runner.Deliver.Complete.{NoAlias, OnAll, upload_complete}
use cs_backup_helper.Runner.Offsite.{
  content_of, Buckets, unlinking, drop_files, after_upload, ship, ship_found, ship_pending,
  ship_all, offsite, track_offsite, offsite_configured, has_local, pending_ids,
}
use cs_backup_helper.Runner.Offsite.Safe.{
  find_artifact-differs, upload-dir, Remote, Safe, unlink-Safe, unlink-Remote, present-or-gone,
  same-content,
}

module _ (S : Storage) (L : IsLawful S) where
  module _ (stores : Buckets S) (clear : NoAlias S stores) (k : Text) (f : File) where
    module _ (artifact : Text) (sid : Text) (marker_differs : marker_name sid ≢ k) where
      -- What an upload to every destination gives.
      Shipped : W S → Type 0
      Shipped w =
          Safe S stores k f w
          × (artifact ≡ k → Remote S stores k f w)
          × (manifest_name sid ≡ k → Remote S stores k f w)

      unlink-Shipped :
          (j : Text) (w : W S)
          → (j ≡ k → Remote S stores k f w)
          → Shipped w
          → Shipped (Storage.unlink S j w).1
      unfolding Shipped
      unlink-Shipped j w held (safe, a, m) = (
        unlink-Safe S L stores k f j w held safe,
        λ p. unlink-Remote S L stores k f j w (a p),
        λ p. unlink-Remote S L stores k f j w (m p),
      )

      drop_files-Shipped :
          (keeps_local : Bool) (errors : List Problem) (w : W S)
          → Shipped w
          → Shipped (drop_files S keeps_local artifact (manifest_name sid) errors w).2
      unfolding Shipped
      drop_files-Shipped true errors w h = h
      drop_files-Shipped false errors w h =
          continue_with-step Shipped Shipped (λ _. unlinking S (manifest_name sid))
            (unlinking S artifact errors w) (unlink-Shipped artifact w h.1 h) (λ v g. g)
            (λ _ more v _ g. unlink-Shipped (manifest_name sid) v g.2 g)

      after_upload-Safe :
          (keeps_local incomplete : Bool) (failures errors : List Problem) (w : W S)
          → Safe S stores k f w
          → (incomplete ≡ false → Shipped w)
          → Safe S stores k f
              (after_upload S sid artifact keeps_local incomplete failures errors w).2
      unfolding Shipped
      after_upload-Safe keeps_local true failures errors w safe h = safe
      after_upload-Safe keeps_local false failures errors w safe h =
          continue_with-step Shipped (Safe S stores k f)
            (λ _. drop_files S keeps_local artifact (manifest_name sid))
            (unlinking S (marker_name sid) errors w)
            (unlink-Shipped (marker_name sid) w (λ p. absurd (marker_differs p)) (h refl))
            (λ v g. g.0) (λ _ more v _ g. (drop_files-Shipped keeps_local more v g).0)

      module _ (content sidecar : File) (w : W S)
          (a : lookup artifact (Storage.dir S w) ≡ some content)
          (m : lookup (manifest_name sid) (Storage.dir S w) ≡ some sidecar) where
        taken : Artifact
        taken = record { name = artifact; content = content }

        after : (List (D S) × List Problem) × W S
        after = upload S (map bucket stores) taken sidecar sid w

        All-map_bucket :
            (P : D S → Type 0) (bs : Buckets S)
            → ((b : Storage.Bucket S) → In b bs → P (bucket b))
            → All P (map bucket bs)
        All-map_bucket P [] h = tt
        All-map_bucket P (b ∷ bs) h = (h b (inl refl), All-map_bucket P bs (λ c n. h c (inr n)))

        -- A file that is gone from the data dir has another name than those being uploaded.
        upload-Remote :
            lookup k (Storage.dir S w) ≡ none → Remote S stores k f w → Remote S stores k f after.1
        unfolding after taken
        upload-Remote gone remote = All-of_In _ stores (λ c n.
            upload-keeps_file S L taken sidecar sid (map bucket stores) (bucket c) k f w
              (All-map_bucket _ stores (λ b o. (
                λ p.
                    present-or-gone S L stores k f w artifact content (clear b c artifact k o n p) a
                      gone,
                λ p.
                    present-or-gone S L stores k f w (manifest_name sid) sidecar
                      (clear b c (manifest_name sid) k o n p) m gone,
              )))
              (All-In _ stores c remote n))

        upload-Safe : Safe S stores k f w → Safe S stores k f after.1
        unfolding after taken
        upload-Safe (inl h) = inl (upload-dir S L stores taken sidecar sid w k ∙ h)
        upload-Safe (inr (gone, remote)) =
            inr (upload-dir S L stores taken sidecar sid w k ∙ gone, upload-Remote gone remote)

        -- What every destination took, held in place of the file of that name.
        taken-Remote :
            (j : Text) (g : File)
            → lookup j (Storage.dir S w) ≡ some g
            → Safe S stores k f w
            → OnAll S stores after.1 j g
            → j ≡ k
            → Remote S stores k f after.1
        taken-Remote j g here (inl h) all p =
            let e = same-content S L stores k f w j g p here h in
            subst (λ i. OnAll S stores after.1 i f) p
              (subst (λ x. OnAll S stores after.1 j x) e all)
        taken-Remote j g here (inr (gone, remote)) all p =
            absurd (present-or-gone S L stores k f w j g p here gone)

        upload-Shipped :
            manifest_name sid ≢ artifact
            → Safe S stores k f w
            → ltb (length after.0.0) (length stores) ≡ false
            → Shipped after.1
        unfolding Shipped after taken
        upload-Shipped differ safe complete =
            let all = upload_complete S L taken sidecar sid stores clear differ w (ground arith) in
            (
              upload-Safe safe,
              taken-Remote artifact content a safe all.0,
              taken-Remote (manifest_name sid) sidecar m safe all.1,
            )

        ship-Safe :
            (keeps_local : Bool) (errors : List Problem)
            → manifest_name sid ≢ artifact
            → Safe S stores k f w
            → Safe S stores k f (ship S stores sid artifact content sidecar keeps_local errors w).2
        unfolding ship after taken
        ship-Safe keeps_local errors differ safe =
            after_upload-Safe keeps_local _ _ errors after.1 (upload-Safe safe)
              (upload-Shipped differ safe)

    ship_found-Safe :
        (sid : Text) (keeps_local : Bool) (errors : List Problem) (w : W S) (artifact : Option Text)
        (content sidecar : Option File)
        → marker_name sid ≢ k
        → ((name : Text) → artifact ≡ some name → manifest_name sid ≢ name)
        → content ≡ content_of S (Storage.dir S w) artifact
        → sidecar ≡ lookup (manifest_name sid) (Storage.dir S w)
        → Safe S stores k f w
        → Safe S stores k f
            (ship_found S stores sid keeps_local artifact content sidecar errors w).2
    ship_found-Safe sid keeps_local errors w (some a) (some c) (some m) apart differ e s safe =
        ship-Safe a sid apart c m w (sym e) (sym s) keeps_local errors (differ a refl) safe
    ship_found-Safe sid keeps_local errors w none c m apart differ e s safe =
        unlink-Safe S L stores k f (marker_name sid) w (λ p. absurd (apart p)) safe
    ship_found-Safe sid keeps_local errors w (some a) none m apart differ e s safe =
        unlink-Safe S L stores k f (marker_name sid) w (λ p. absurd (apart p)) safe
    ship_found-Safe sid keeps_local errors w (some a) (some c) none apart differ e s safe =
        unlink-Safe S L stores k f (marker_name sid) w (λ p. absurd (apart p)) safe

    ship_all-Safe :
        (sids : List Text) (keeps_local : Bool) (errors : List Problem) (w : W S)
        → ((sid : Text) → marker_name sid ≢ k)
        → Safe S stores k f w
        → Safe S stores k f (ship_all S stores sids keeps_local errors w).2
    unfolding ship_all ship_pending
    ship_all-Safe [] keeps_local errors w apart safe = safe
    ship_all-Safe (sid ∷ sids) keeps_local errors w apart safe =
        continue_with-step (Safe S stores k f) (Safe S stores k f)
          (λ _. ship_all S stores sids keeps_local) (ship_pending S stores sid keeps_local errors w)
          (ship_found-Safe sid keeps_local errors w _ _ _ (apart sid)
            (find_artifact-differs (Storage.dir S w) sid) refl refl safe)
          (λ v h. h) (λ _ more v _ h. ship_all-Safe sids keeps_local more v apart h)

module _ (S : Storage) (L : IsLawful S) where
  -- Whether tracking the off-site copy returns or raises, a file of the data dir that is no
  -- pending marker is still there unchanged, or it was removed and every off-site destination that
  -- stored this run's snapshot holds it, provided that no two keys of those destinations share an
  -- address.
  pub track_offsite_keeps :
      (job : Job) (sid : Text) (delivery : Delivery (Storage.Bucket S)) (errors : List Problem)
      (w : W S) (k : Text) (f : File)
      → NoAlias S (offsite S delivery.stored)
      → ((id : Text) → marker_name id ≢ k)
      → lookup k (Storage.dir S w) ≡ some f
      → (let after = (track_offsite S job sid delivery errors w).2 in
          (lookup k (Storage.dir S after) ≡ some f)
          ⊎ ((lookup k (Storage.dir S after) ≡ none)
              × OnAll S (offsite S delivery.stored) after k f))
  unfolding track_offsite
  track_offsite_keeps job sid delivery errors w k f clear apart h =
      elim (Bool-cases (is_empty (offsite S delivery.stored))) [
        | inl e ↦
            rw e (elim (Bool-cases (offsite_configured job && not (is_empty delivery.stored))) [
              | inl c ↦
                  rw c
                    (inl (L.write-others (marker_name sid) k (marker job.name) w (apart sid) ∙ h))
              | inr c ↦ rw c (inl h)
            ])
        | inr e ↦ rw e (
            ship_all-Safe S L (offsite S delivery.stored) clear k f
              (pending_ids (Storage.dir S w) job.name)
              (job.keep_local && has_local job.destinations) errors w apart (inl h))
      ]
