-- ===== src/S3Source.antt =====
-- sources/s3_bucket.py: what is captured of a bucket's objects, over the S3 client and the local files.
pub mod Bucket
pub mod Collected
pub mod Downloads
pub mod Files
pub mod Headers
pub mod Mirror
pub mod Restore
pub mod RoundTrip
pub mod Tests
use cs_backup_helper.Base.{
  false, ℕ, suc, ◌==◌, Bool, ◌||◌, Option, none, some, List, [], ◌∷◌, ◌++◌, map, any, length,
  is_empty, if◌then◌else◌,
}
use cs_backup_helper.Base.Text.{Text, codes, elem}
use cs_backup_helper.Base.Words.{decimal_from, distinct, join}
use cs_backup_helper.Base.Sort.{sort_asc}
use cs_backup_helper.Base.Dict.{Dict, lookup, insert}
use cs_backup_helper.Base.Result.{Exn, Result}

-- `S3SourceConfig`, without the connection.
pub record S3SourceConfig : Type 0 where
  pub bucket : Text
  pub prefix : Text
  pub name : Text

-- `_CONTENT_HEADERS`: the key in metadata.json, and the name for the client.
abbrev pub content_headers : Dict Text
content_headers =
    (codes "content_type", codes "ContentType")
    ∷ (codes "content_disposition", codes "ContentDisposition")
    ∷ (codes "cache_control", codes "CacheControl")
    ∷ (codes "content_encoding", codes "ContentEncoding")
    ∷ (codes "content_language", codes "ContentLanguage")
    ∷ []

-- `get_object`: the body and the fields of the answer; the headers by their names.
pub record Response : Type 0 where
  pub body : Text
  pub content_length : Option ℕ
  pub metadata : Dict Text
  pub storage_class : Option Text
  pub etag : Option Text
  pub headers : Dict Text

-- An object in metadata.json; a header has the key of `_CONTENT_HEADERS`.
pub record Entry : Type 0 where
  pub key : Text
  pub size : ℕ
  pub metadata : Dict Text
  pub storage_class : Option Text
  pub etag : Option Text
  pub tags : Option (Dict Text)
  pub headers : Dict (Option Text)

-- `get_object_tagging`: the tags, a `ClientError` with its code and its HTTP status, or another
-- exception.
pub data Tagging : Type 0 where
  tag_set : List (Text × Text) → Tagging
  client_error : Text → Option ℕ → Exn → Tagging
  other_error : Exn → Tagging

-- The arguments of `put_object`, by what restore may pass.
pub record Put : Type 0 where
  pub key : Text
  pub body : Text
  pub headers : Dict Text
  pub metadata : Option (Dict Text)
  pub tagging : Option Text

-- What the source calls outside, with one bucket; the pages of a listing are read as one list.
pub record Client : Type 1 where
  pub World : Type 0
  pub list_objects : Text → World → Result (List Text) × World
  pub get_object : Text → World → Result Response × World
  pub get_object_tagging : Text → World → Tagging × World
  pub put_object : Put → World → Result (Unit {0}) × World
  -- `urlencode(tags, quote_via=quote)`
  pub urlencode : Dict Text → Text
  -- metadata.json and `create_bundle`, from the entries and the files, and the removal of the bundle.
  pub create_bundle : Text → List Entry → Dict Text → World → Result (Unit {0}) × World
  pub unlink : Text → World → Result (Unit {0}) × World
  -- `str(exc)`
  pub show : Exn → Text

-- `{t["Key"]: t["Value"] for t in pairs}`
unfoldable pub add_pairs : List (Text × Text) → Dict Text → Dict Text
unfolding insert
add_pairs [] d = d
add_pairs ((k, v) ∷ pairs) d = add_pairs pairs (insert k v d)

abbrev pub dict_of : List (Text × Text) → Dict Text
dict_of pairs = add_pairs pairs []

abbrev pub tagging_unavailable_codes : List Text
tagging_unavailable_codes =
    codes "AccessDenied"
    ∷ codes "NotImplemented"
    ∷ codes "MethodNotAllowed"
    ∷ codes "NotSupported"
    ∷ codes "UnsupportedOperation"
    ∷ codes "XNotImplemented"
    ∷ []

abbrev pub is_unavailable_status : Option ℕ → Bool
is_unavailable_status none = false
is_unavailable_status (some status) = status == 403 || status == 405 || status == 501

abbrev pub status_text : Option ℕ → Text
status_text none = codes "HTTP None"
status_text (some status) = codes "HTTP " ++ decimal_from 3 status

-- `_tagging_unavailable`
unfoldable pub tagging_unavailable : Text → Option ℕ → Option Text
unfolding decimal_from
tagging_unavailable code status =
    if elem code tagging_unavailable_codes || is_unavailable_status status
    then some (if is_empty code then status_text status else code)
    else none

-- `_untagged_warning`: a code for each object without tags.
unfoldable pub untagged_warning : List Text → ℕ → Text
unfolding decimal_from join distinct sort_asc
untagged_warning untagged total =
    let refused = join (codes ", ") (sort_asc (λ code. code) (distinct untagged)) in
    codes "tags of "
    ++ (decimal_from (suc (length untagged)) (length untagged)
        ++ (codes " of "
            ++ (decimal_from (suc total) total
                ++ (codes " objects (get_object_tagging: "
                    ++ (refused ++ codes "); these objects restore without tags")))))

-- The headers of an entry, from those of an answer.
unfoldable pub captured_headers : Dict Text → Dict (Option Text)
unfolding lookup
captured_headers headers = map (λ (field, header). (field, lookup header headers)) content_headers
