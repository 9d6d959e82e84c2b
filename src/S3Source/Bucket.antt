-- ===== src/S3Source/Bucket.antt =====
-- What a bucket holds, what the client does to it, and when an object counts as restored.
use cs_backup_helper.Base.{◌≡◌, refl, true, Option, none, some, List, [], ◌∷◌, In, if◌then◌else◌}
use cs_backup_helper.Base.Text.{Text, text_eq, starts_with}
use cs_backup_helper.Base.Dict.{Dict, lookup}
use cs_backup_helper.Base.Result.{ok}
use cs_backup_helper.S3Source.{
  Response, Entry, tag_set, Put, Client, dict_of, captured_headers, content_headers,
}
use cs_backup_helper.S3Source.Headers.{shown, put_captured}
use cs_backup_helper.S3Source.Files.{is_inside, dest}
use cs_backup_helper.S3Source.Restore.{put_of, tagging_of, not_empty}

-- An object as clients see it.
pub record Object : Type 0 where
  pub body : Text
  pub metadata : Dict Text
  pub tags : Dict Text
  pub headers : Dict Text

abbrev pub or_no_dict : Option (Dict Text) → Dict Text
or_no_dict none = []
or_no_dict (some d) = d

abbrev pub decoded : (Text → Dict Text) → Option Text → Dict Text
decoded decode none = []
decoded decode (some text) = decode text

-- The object that a request makes.
abbrev pub object_of : (Text → Dict Text) → Put → Object
object_of decode put = record {
  body = put.body;
  metadata = or_no_dict put.metadata;
  tags = decoded decode put.tagging;
  headers = put.headers;
}

-- Each key has a file of its own in the stage.
pub record HasOwnFiles (held : Text → Option Object) : Type 0 where
  pub inside : (k : Text) (o : Object) → held k ≡ some o → is_inside k ≡ true
  pub apart :
      (j k : Text) (o p : Object) → held j ≡ some o → held k ≡ some p → dest j ≡ dest k → j ≡ k

-- The documented behaviour of the client, over what the bucket holds in a world: an answer describes
-- the object that is there, a request replaces it, and all else leaves the bucket as it is.
pub record IsBucket (C : Client) (decode : Text → Dict Text)
    (view : Client.World C → Text → Option Object) : Type 0 where
  pub decode_urlencode : (d : Dict Text) → decode (Client.urlencode C d) ≡ d
  pub list_all :
      (prefix : Text) (keys : List Text) (w v : Client.World C)
      → Client.list_objects C prefix w ≡ (ok keys, v)
      → (key : Text) (o : Object) → starts_with prefix key ≡ true
      → view w key ≡ some o
      → In key keys
  pub list_keeps :
      (prefix : Text) (w : Client.World C) → view (Client.list_objects C prefix w).1 ≡ view w
  pub get_describes :
      (key : Text) (resp : Response) (w v : Client.World C)
      → Client.get_object C key w ≡ (ok resp, v)
      → (o : Object) × (view w key ≡ some o)
        × (resp.body ≡ o.body)
        × (resp.metadata ≡ o.metadata)
        × (resp.headers ≡ o.headers)
  pub get_keeps : (key : Text) (w : Client.World C) → view (Client.get_object C key w).1 ≡ view w
  pub tags_describe :
      (key : Text) (pairs : List (Text × Text)) (o : Object) (w v : Client.World C)
      → Client.get_object_tagging C key w ≡ (tag_set pairs, v)
      → view w key ≡ some o
      → dict_of pairs ≡ o.tags
  pub tags_keep :
      (key : Text) (w : Client.World C) → view (Client.get_object_tagging C key w).1 ≡ view w
  pub put_stores :
      (put : Put) (w v : Client.World C)
      → Client.put_object C put w ≡ (ok tt, v)
      → (key : Text)
      → view v key ≡ (if text_eq put.key key then some (object_of decode put) else view w key)

-- The restored object has the body, the metadata and the tags of the original, and each content
-- header that is not empty.
pub record IsRestored (o p : Object) : Type 0 where
  pub same_body : p.body ≡ o.body
  pub same_metadata : p.metadata ≡ o.metadata
  pub same_tags : p.tags ≡ o.tags
  pub same_headers :
      (field header : Text)
      → In (field, header) content_headers
      → lookup header p.headers ≡ shown (lookup header o.headers)

module _ (C : Client) (decode : Text → Dict Text) (view : Client.World C → Text → Option Object)
    (law : IsBucket C decode view) where
  -- An entry that describes an object.
  pub record Describes (entry : Entry) (o : Object) : Type 0 where
    pub the_metadata : entry.metadata ≡ o.metadata
    pub the_tags : entry.tags ≡ some o.tags
    pub the_headers : entry.headers ≡ captured_headers o.headers

  put_metadata : (d : Dict Text) → or_no_dict (not_empty d) ≡ d
  put_metadata [] = refl
  put_metadata (pair ∷ d) = refl

  put_tags : (d : Dict Text) → decoded decode (tagging_of C (some d)) ≡ d
  put_tags [] = refl
  put_tags (tag ∷ d) = law.decode_urlencode (tag ∷ d)

  pub put-IsRestored :
      (entry : Entry) (o : Object) (body : Text)
      → Describes entry o
      → body ≡ o.body
      → IsRestored o (object_of decode (put_of C entry body))
  put-IsRestored entry o body d same = record {
    same_body = same;
    same_metadata = rw d.the_metadata (put_metadata o.metadata);
    same_tags = rw d.the_tags (put_tags o.tags);
    same_headers = λ field header m. rw d.the_headers (put_captured o.headers field header m);
  }
