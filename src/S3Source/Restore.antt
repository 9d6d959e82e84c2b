-- ===== src/S3Source/Restore.antt =====
-- sources/s3_bucket.py: the objects of a mirror, put back into the bucket.
use cs_backup_helper.Base.{Option, none, some, List, [], ◌∷◌, is_empty, if◌then◌else◌}
use cs_backup_helper.Base.Text.{Text}
use cs_backup_helper.Base.Dict.{Dict, lookup, insert}
use cs_backup_helper.Base.Result.{Result, ok}
use cs_backup_helper.Tools.{◌>>=◌, ◌>>◌, returning}
use cs_backup_helper.S3Source.{Entry, Put, Client, content_headers}
use cs_backup_helper.S3Source.Files.{read_bytes}

-- A header that is there, not null and not empty, is passed on.
abbrev pub set_header : Text → Option (Option Text) → Dict Text → Dict Text
set_header header none extra = extra
set_header header (some none) extra = extra
set_header header (some (some value)) extra =
    if is_empty value then extra else insert header value extra

unfoldable pub put_headers : Dict Text → Dict (Option Text) → Dict Text → Dict Text
unfolding lookup insert
put_headers [] entry extra = extra
put_headers ((field, header) ∷ rest) entry extra =
    put_headers rest entry (set_header header (lookup field entry) extra)

abbrev pub not_empty : Dict Text → Option (Dict Text)
not_empty [] = none
not_empty (pair ∷ d) = some (pair ∷ d)

module _ (C : Client) where
  abbrev pub tagging_of : Option (Dict Text) → Option Text
  tagging_of none = none
  tagging_of (some []) = none
  tagging_of (some (tag ∷ tags)) = some (Client.urlencode C (tag ∷ tags))

  abbrev pub put_of : Entry → Text → Put
  put_of entry body = record {
    key = entry.key;
    body = body;
    headers = put_headers content_headers entry.headers [];
    metadata = not_empty entry.metadata;
    tagging = tagging_of entry.tags;
  }

  -- `S3BucketSource.restore`, from the objects of metadata.json and the files.
  unfoldable pub restore :
      List Entry → Dict Text → Client.World C → Result (Unit {0}) × Client.World C
  unfolding read_bytes put_headers
  restore [] files = returning (ok tt)
  restore (entry ∷ objects) files = returning (read_bytes entry.key files) >>= λ body.
      Client.put_object C (put_of entry body) >> restore objects files
