-- ===== src/Runner/Tests/Copies.antt =====
-- Deliveries, shippings and retention of the sample job.
use mathlib.Core.Bool.{false≢true}
use cs_backup_helper.Base.{
  ◌≡◌, ◌≢◌, refl, sym, ap, ◌∙◌, ◌⊎◌, inl, inr, true, false, none, some, List, [], ◌∷◌, ◌++◌,
  is_empty, All, In, ℕ, arith,
}
use cs_backup_helper.Base.Text.{text_lt, Text, codes, text_eq, eq_iff, elem, starts_with}
use cs_backup_helper.Base.Dict.{lookup}
use cs_backup_helper.Retention.{Snapshot}
use cs_backup_helper.Storage.Memory.{Memory, memory, memory-IsLawful}
use cs_backup_helper.Runner.{manifest_name, marker_name}
use cs_backup_helper.Runner.Deliver.{data_dir, bucket, Delivery}
use cs_backup_helper.Runner.Deliver.Puts.{HasSnapshot, AllSeparate}
use cs_backup_helper.Runner.Deliver.Stored.{
  delivered, world_after, deliver-HasSnapshot, deliver_stores,
}
use cs_backup_helper.Runner.Deliver.Complete.{NoAlias, OnAll}
use cs_backup_helper.Runner.Offsite.{track_offsite}
use cs_backup_helper.Runner.Offsite.Kept.{track_offsite_keeps}
use cs_backup_helper.Runner.Prune.{apply_retention, snapshot_ids}
use cs_backup_helper.Runner.Prune.Own.{apply_retention_keeps, apply_retention_keeps_last}
use cs_backup_helper.Runner.Samples.{
  noon, job, sid, archive, sidecar, artifact, empty, pending, params,
}

-- Texts that differ.
differ : (s t : Text) → text_eq s t ≡ false → s ≢ t
differ s t h p = false≢true (sym h ∙ (eq_iff s t).1 p)

names_differ : manifest_name sid ≢ artifact.name
unfolding text_eq
names_differ = differ (manifest_name sid) artifact.name refl

separate :
    AllSeparate memory memory-IsLawful artifact sidecar sid
      (delivered memory job artifact sidecar sid empty).destinations
unfolding cs_backup_helper.Runner.Deliver.deliver cs_backup_helper.Runner.Deliver.settle
    cs_backup_helper.Runner.Deliver.upload cs_backup_helper.Runner.Deliver.build_destinations
    text_eq
separate = (
  names_differ,
  ((tt, tt, tt, tt), tt),
  (differ (codes "p/s.manifest.json") (codes "p/s.tar.gz") refl, tt, tt),
)

deliver-HasSnapshot_example :
    All
      (HasSnapshot memory artifact sidecar sid (world_after memory job artifact sidecar sid empty))
      (delivered memory job artifact sidecar sid empty).stored
deliver-HasSnapshot_example =
    deliver-HasSnapshot memory job artifact sidecar sid empty memory-IsLawful separate names_differ

deliver_stores_example : is_empty (delivered memory job artifact sidecar sid empty).stored ≡ false
deliver_stores_example = deliver_stores memory job artifact sidecar sid empty (λ k f v. refl)

after_prefix : (b j k : Text) → b ++ j ≡ b ++ k → j ≡ k
after_prefix [] j k e = e
after_prefix (c ∷ b) j k e = after_prefix b j k (ap tail e)
  where
    tail : Text → Text
    tail [] = []
    tail (x ∷ t) = t

abbrev buckets : List Text
buckets = codes "p/" ∷ []

no_alias : NoAlias memory buckets
no_alias b c j k (inl p) (inl q) e =
    after_prefix (codes "p/") j k (sym (ap (λ x. x ++ j) p) ∙ e ∙ ap (λ x. x ++ k) q)
no_alias b c j k (inl p) (inr impossible) e = elim impossible [ ]
no_alias b c j k (inr impossible) n e = elim impossible [ ]

abbrev last_code : Text → ℕ
last_code [] = 0
last_code (c ∷ []) = c
last_code (c ∷ d ∷ t) = last_code (d ∷ t)

last_code-append : (s : Text) (c : ℕ) (t : Text) → last_code (s ++ (c ∷ t)) ≡ last_code (c ∷ t)
last_code-append [] c t = refl
last_code-append (a ∷ []) c t = refl
last_code-append (a ∷ b ∷ s) c t = last_code-append (b ∷ s) c t

no_marker : (id : Text) → marker_name id ≢ codes "s.tar.gz"
no_marker id p = let e = sym (last_code-append id b'.' _) ∙ ap last_code p in ground arith

abbrev sent : Delivery Text
sent = record {
  destinations = bucket (codes "p/") ∷ [];
  stored = bucket (codes "p/") ∷ [];
  fell_back = false;
}

track_offsite_keeps_example :
    (let after = (track_offsite memory job (codes "t") sent [] pending).2 in
      (lookup (codes "s.tar.gz") after.files ≡ some archive)
      ⊎ ((lookup (codes "s.tar.gz") after.files ≡ none)
          × OnAll memory buckets after (codes "s.tar.gz") archive))
unfolding lookup text_eq
track_offsite_keeps_example =
    track_offsite_keeps memory memory-IsLawful job (codes "t") sent [] pending (codes "s.tar.gz")
      archive no_alias no_marker refl

own_id : (x y : Text) → elem x (y ∷ []) ≡ true → x ≡ y
own_id x y h = (eq_iff x y).0 (ground arith)

abbrev two_copies : Memory
two_copies = record {
  files =
      (codes "a.manifest.json", sidecar)
      ∷ (codes "a.tar.gz", archive)
      ∷ (codes "b.manifest.json", sidecar)
      ∷ (codes "b.tar.gz", archive)
      ∷ [];
  objects = [];
}

apply_retention_keeps_example :
    lookup
      (codes "b.tar.gz")
      (apply_retention memory data_dir job.retention noon params.scope
        (some (codes "a" ∷ []))
        []
        two_copies).2.files
    ≡ some archive
unfolding lookup text_eq cs_backup_helper.Runner.Prune.is_mine starts_with
apply_retention_keeps_example =
    apply_retention_keeps memory memory-IsLawful data_dir data_dir (codes "b.tar.gz") archive
      (λ j h. h) job.retention noon params.scope (some (codes "a" ∷ [])) [] two_copies
      (λ found q x listed h. rw (own_id x (codes "a") h) refl) refl

of_two : (x : Text) → x ≢ codes "b" → elem x (codes "a" ∷ codes "b" ∷ []) ≡ true → x ≡ codes "a"
of_two x other h = ground (arith, eq_iff x (codes "a"), eq_iff x (codes "b"))

abbrev own_b : Snapshot
own_b = record { id = codes "b"; when = noon }

last_of_two :
    (t : Snapshot)
    → In t (record { id = codes "a"; when = noon } ∷ own_b ∷ [])
    → text_lt own_b.id t.id ≡ false
unfolding text_lt
last_of_two t (inl p) = rw p refl
last_of_two t (inr (inl p)) = rw p refl
last_of_two t (inr (inr impossible)) = elim impossible [ ]

apply_retention_keeps_last_example :
    lookup
      (codes "b.tar.gz")
      (apply_retention memory data_dir job.retention noon params.scope none [] two_copies).2.files
    ≡ some archive
unfolding lookup cs_backup_helper.Base.Sort.sort_asc cs_backup_helper.Base.Dict.keys starts_with
    text_lt cs_backup_helper.Runner.Prune.snapshots_of snapshot_ids
    cs_backup_helper.Base.Text.strip_suffix text_eq cs_backup_helper.Runner.Prune.is_mine
    cs_backup_helper.Snapshots.owns cs_backup_helper.Snapshots.parse_snapshot_id
    cs_backup_helper.Clock.Format.strptime cs_backup_helper.Clock.Format.field
apply_retention_keeps_last_example =
    apply_retention_keeps_last memory memory-IsLawful data_dir data_dir (codes "b.tar.gz") archive
      (λ j h. h) job.retention noon params.scope none [] two_copies
      (codes "a.manifest.json" ∷ codes "a.tar.gz" ∷ codes "b.manifest.json" ∷ codes "b.tar.gz" ∷ [])
      own_b refl refl (inr (inl refl), last_of_two) (λ x other h. rw (of_two x other h) refl) refl
