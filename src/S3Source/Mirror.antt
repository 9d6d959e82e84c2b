-- ===== src/S3Source/Mirror.antt =====
-- sources/s3_bucket.py: the download of a bucket into the staging dir.
use cs_backup_helper.Base.{
  ℕ, Option, none, some, List, [], ◌∷◌, ◌++◌, length, is_empty, if◌then◌else◌,
}
use cs_backup_helper.Base.Text.{Text, codes}
use cs_backup_helper.Base.Sort.{sort_asc}
use cs_backup_helper.Base.Dict.{Dict}
use cs_backup_helper.Base.Result.{Exn, Result, ok, raised}
use cs_backup_helper.Runner.Engine.{StagedComponent}
use cs_backup_helper.Tools.{◌>>=◌, ◌>>◌, returning}
use cs_backup_helper.S3Source.{
  S3SourceConfig, Response, Entry, Tagging, tag_set, client_error, other_error, Client, dict_of,
  add_pairs, tagging_unavailable, untagged_warning, captured_headers,
}
use cs_backup_helper.S3Source.Files.{write_bytes}

-- The files so far, and a code for each object whose tags could not be read.
pub record Stage : Type 0 where
  pub files : Dict Text
  pub untagged : List Text

-- What is bundled: the entries, in order, with the stage.
pub record Mirrored : Type 0 where
  pub objects : List Entry
  pub stage : Stage

abbrev pub size_or : ℕ → Option ℕ → ℕ
size_or n none = n
size_or n (some length) = length

module _ (C : Client) where
  abbrev Call : Type 0 → Type 0
  Call A = Client.World C → Result A × Client.World C

  abbrev pub or_untagged : Stage → Exn → Option Text → Result (Option (Dict Text) × Stage)
  or_untagged stage e none = raised e
  or_untagged stage e (some code) =
      ok (none, record stage { untagged = stage.untagged ++ (code ∷ []) })

  abbrev pub tags_of : Stage → Tagging → Result (Option (Dict Text) × Stage)
  tags_of stage (tag_set pairs) = ok (some (dict_of pairs), stage)
  tags_of stage (client_error code status e) = or_untagged stage e (tagging_unavailable code status)
  tags_of stage (other_error e) = raised e

  -- `_tags`
  unfoldable pub tags : Text → Stage → Call (Option (Dict Text) × Stage)
  unfolding add_pairs tagging_unavailable
  tags key stage w =
      let (answer, w') = Client.get_object_tagging C key w in (tags_of stage answer, w')

  abbrev pub entry_of : Text → Response → Option (Dict Text) → Entry
  entry_of key resp tags = record {
    key = key;
    size = size_or (length resp.body) resp.content_length;
    metadata = resp.metadata;
    storage_class = resp.storage_class;
    etag = resp.etag;
    tags = tags;
    headers = captured_headers resp.headers;
  }

  -- `_download_one`
  unfoldable pub download_one : Text → Stage → Call (Entry × Stage)
  unfolding write_bytes tags captured_headers
  download_one key stage = Client.get_object C key >>= λ resp.
      returning (write_bytes key resp.body stage.files) >>= λ files.
      tags key (record stage { files = files }) >>= λ got.
      returning (ok (entry_of key resp got.0, got.1))

  unfoldable pub download_keys : List Text → Stage → Call (List Entry × Stage)
  unfolding download_one
  download_keys [] stage = returning (ok ([], stage))
  download_keys (key ∷ keys) stage = download_one key stage >>= λ one.
      download_keys keys one.1 >>= λ more. returning (ok (one.0 ∷ more.0, more.1))

  -- `_download_all`
  unfoldable pub download_all : Text → Call Mirrored
  unfolding download_keys sort_asc
  download_all prefix = Client.list_objects C prefix >>= λ keys.
      download_keys keys (record { files = []; untagged = [] }) >>= λ all.
      returning
        (ok (record { objects = sort_asc (λ (entry : Entry). entry.key) all.0; stage = all.1 }))

  abbrev pub warnings_of : Mirrored → List Text
  warnings_of m =
      if is_empty m.stage.untagged
      then []
      else untagged_warning m.stage.untagged (length m.objects) ∷ []

  -- The `try` of `produce`.
  unfoldable pub mirror : S3SourceConfig → Text → Call Mirrored
  unfolding download_all
  mirror cfg out = download_all cfg.prefix >>= λ m.
      Client.create_bundle C out m.objects m.stage.files >> returning (ok m)

  abbrev pub component : S3SourceConfig → Text → List Text → Text → StagedComponent
  component cfg path warnings error = record {
    name = cfg.name;
    kind = codes "s3";
    path = path;
    warnings = warnings;
    error = error;
  }

  -- `except Exception`
  abbrev pub surfaced :
      S3SourceConfig
      → Text
      → Result Mirrored × Client.World C
      → Result (List StagedComponent) × Client.World C
  surfaced cfg out (ok m, w) = (ok (component cfg out (warnings_of m) [] ∷ []), w)
  surfaced cfg out (raised e, w) =
      (Client.unlink C out
          >> returning
              (ok (component cfg [] [] (codes "s3 mirror failed: " ++ Client.show C e) ∷ [])))
        w

  -- `S3BucketSource.produce`; the staging dir is there.
  unfoldable pub produce : S3SourceConfig → Text → Call (List StagedComponent)
  unfolding mirror untagged_warning
  produce cfg staging_dir w =
      let out = staging_dir ++ (codes "/" ++ (cfg.name ++ codes ".tar.gz")) in
      surfaced cfg out (mirror cfg out w)
