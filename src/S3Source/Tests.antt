-- ===== src/S3Source/Tests.antt =====
-- A bucket in memory, mirrored and restored.
use cs_backup_helper.Base.{
  ◌-◌, ◌==◌, length, ◌≡◌, refl, sym, ap, ◌∙◌, subst, inl, inr, ◌⊎◌, true, Option, none, some, List,
  [], ◌∷◌, ◌++◌, In, keep_if, if◌then◌else◌, arith, map, suc,
}
use cs_backup_helper.Base.Text.{Text, codes, text_eq, starts_with, text_lt}
use cs_backup_helper.Base.Members.{In-keep_if, In-elem}
use cs_backup_helper.Base.Words.{put_first}
use cs_backup_helper.Base.Dict.{Dict, lookup, insert, keys, lookup-insert, elem-keys}
use cs_backup_helper.Base.Result.{Result, ok, raised, os_error, ok-injective}
use cs_backup_helper.S3Source.{
  S3SourceConfig, Response, Tagging, tag_set, other_error, Client, dict_of, add_pairs,
  tagging_unavailable,
}
use cs_backup_helper.S3Source.Bucket.{Object, object_of, HasOwnFiles, IsBucket, IsRestored}
use cs_backup_helper.S3Source.Files.{is_inside, dest, write_bytes}
use cs_backup_helper.S3Source.Mirror.{Mirrored, mirror}
use cs_backup_helper.S3Source.Restore.{restore}
use cs_backup_helper.S3Source.RoundTrip.{mirror_restores}

-- Texts as one text: each code is raised by one, and a zero ends a text.
ended : Text → Text → Text
ended t rest = map (λ c. suc c) t ++ (0 ∷ rest)

encode : Dict Text → Text
unfolding ended
encode [] = []
encode ((k, v) ∷ d) = ended k (ended v (encode d))

pieces : Text → List Text
pieces [] = []
pieces (c ∷ s) = let rest = pieces s in if c == 0 then [] ∷ rest else put_first (c - 1) rest

paired : List Text → Dict Text
paired [] = []
paired (k ∷ []) = []
paired (k ∷ v ∷ rest) = (k, v) ∷ paired rest

decode : Text → Dict Text
unfolding pieces paired
decode t = paired (pieces t)

pieces-ended : (t rest : Text) → pieces (ended t rest) ≡ t ∷ pieces rest
unfolding pieces ended
pieces-ended [] rest = refl
pieces-ended (c ∷ t) rest = rw (pieces-ended t rest) (ground arith)

decode-encode : (d : Dict Text) → decode (encode d) ≡ d
unfolding decode encode
decode-encode [] = refl
decode-encode ((k, v) ∷ d) =
    rw (pieces-ended k (ended v (encode d)), pieces-ended v (encode d))
      (ap (λ l. (k, v) ∷ l) (decode-encode d))

abbrev Held : Type 0
Held = Dict Object

abbrev answer : Option Object → Result Response
answer none = raised os_error
answer (some o) = ok (record {
  body = o.body;
  content_length = some (length o.body);
  metadata = o.metadata;
  storage_class = none;
  etag = none;
  headers = o.headers;
})

-- An object has at most one tag here.
abbrev only_tag : Dict Text → Tagging
only_tag [] = tag_set []
only_tag (tag ∷ []) = tag_set (tag ∷ [])
only_tag (tag ∷ other ∷ more) = other_error os_error

abbrev tag_answer : Option Object → Tagging
tag_answer none = other_error os_error
tag_answer (some o) = only_tag o.tags

abbrev memory : Client
memory = record {
  World = Held;
  list_objects = λ prefix w. (ok (keep_if (starts_with prefix) (keys w)), w);
  get_object = λ key w. (answer (lookup key w), w);
  get_object_tagging = λ key w. (tag_answer (lookup key w), w);
  put_object = λ put w. (ok tt, insert put.key (object_of decode put) w);
  urlencode = encode;
  create_bundle = λ out entries files w. (ok tt, w);
  unlink = λ path w. (ok tt, w);
  show = λ e. codes "exception";
}

abbrev view : Held → Text → Option Object
view w key = lookup key w

listed :
    (prefix : Text) (names : List Text) (w : Held)
    → ok (keep_if (starts_with prefix) (keys w)) ≡ ok names
    → (key : Text) (o : Object) → starts_with prefix key ≡ true
    → lookup key w ≡ some o
    → In key names
listed prefix names w h key o below there =
    let all = ok-injective (keep_if (starts_with prefix) (keys w)) names h in
    subst (In key) all (
      In-keep_if (starts_with prefix) (keys w) key
        (In-elem key (keys w) (elem-keys key w ∙ rw there refl)) below)

described :
    (found : Option Object) (resp : Response)
    → answer found ≡ ok resp
    → (o : Object) × (found ≡ some o)
      × (resp.body ≡ o.body)
      × (resp.metadata ≡ o.metadata)
      × (resp.headers ≡ o.headers)
described none resp h = absurd (ground arith)
described (some o) resp h = (o, refl, ground arith, ground arith, ground arith)

tagged : (pairs tags : Dict Text) → only_tag tags ≡ tag_set pairs → dict_of pairs ≡ tags
unfolding add_pairs
tagged pairs [] h = let same : [] ≡ pairs = ground arith in rw (← same) refl
tagged pairs ((k, v) ∷ []) h = let same : (k, v) ∷ [] ≡ pairs = ground arith in rw (← same) refl
tagged pairs (tag ∷ other ∷ more) h = absurd (ground arith)

memory-IsBucket : IsBucket memory decode view
memory-IsBucket = record {
  decode_urlencode = decode-encode;
  list_all = λ prefix names w v h. listed prefix names w (ap (λ p. p.0) h);
  list_keeps = λ prefix w. refl;
  get_describes = λ key resp w v h. described (lookup key w) resp (ap (λ p. p.0) h);
  get_keeps = λ key w. refl;
  tags_describe =
      λ key pairs o w v h there. tagged pairs o.tags (ap tag_answer (sym there) ∙ ap (λ p. p.0) h);
  tags_keep = λ key w. refl;
  put_stores = λ put w v h key.
      ap (λ (u : Held). lookup key u) (sym (ap (λ p. p.1) h))
      ∙ lookup-insert put.key key (object_of decode put) w;
}

abbrev page : Object
page = record {
  body = codes "<html>";
  metadata = (codes "owner", codes "docs") ∷ [];
  tags = (codes "c++", codes "a b") ∷ [];
  headers = (codes "ContentType", codes "text/html") ∷ (codes "CacheControl", []) ∷ [];
}

abbrev note : Object
note = record { body = []; metadata = []; tags = []; headers = [] }

abbrev before : Held
before = (codes "www/index.html", page) ∷ (codes "www/note", note) ∷ []

abbrev cfg : S3SourceConfig
cfg = record { bucket = codes "site"; prefix = codes "www/"; name = codes "s3" }

abbrev index_name : Text
index_name = codes "www/index.html"

abbrev note_name : Text
note_name = codes "www/note"

one_of_two : (k : Text) (o : Object) → view before k ≡ some o → (k ≡ index_name) ⊎ (k ≡ note_name)
unfolding keys
one_of_two k o found = elim (In-elem k (keys before) (elem-keys k before ∙ rw found refl)) [
  | inl e ↦ inl e
  | inr (inl e) ↦ inr e
  | inr (inr n) ↦ elim n [ ]
]

other_file : dest index_name ≡ dest note_name → index_name ≡ note_name
unfolding dest text_eq
other_file h = absurd (ground arith)

before_inside : (k : Text) (o : Object) → view before k ≡ some o → is_inside k ≡ true
unfolding is_inside text_eq
before_inside k o found = elim (one_of_two k o found) [
  | inl e ↦ ap is_inside e
  | inr e ↦ ap is_inside e
]

before_apart :
    (j k : Text) (o p : Object)
    → view before j ≡ some o
    → view before k ≡ some p
    → dest j ≡ dest k
    → j ≡ k
before_apart j k o p in_j in_k same = elim (one_of_two j o in_j) [
  | inl e ↦ elim (one_of_two k p in_k) [
    | inl f ↦ e ∙ sym f
    | inr f ↦ e ∙ other_file (ap dest (sym e) ∙ same ∙ ap dest f) ∙ sym f
  ]
  | inr e ↦ elim (one_of_two k p in_k) [
    | inl f ↦ e ∙ sym (other_file (ap dest (sym f) ∙ sym same ∙ ap dest e)) ∙ sym f
    | inr f ↦ e ∙ sym f
  ]
]

before-HasOwnFiles : HasOwnFiles (view before)
before-HasOwnFiles = record { inside = before_inside; apart = before_apart }

-- An empty header is not passed on.
abbrev restored_page : Object
restored_page = record page { headers = (codes "ContentType", codes "text/html") ∷ [] }

abbrev after : Held
after = (index_name, restored_page) ∷ (note_name, note) ∷ []

abbrev mirrored : Mirrored
unfolding mirror is_inside dest text_eq text_lt keys
mirrored = elim (mirror memory cfg (codes "/s/s3.tar.gz") before).0 [
  | ok m ↦ m
  | raised e ↦ record { objects = []; stage = record { files = []; untagged = [] } }
]

restored_test : restore memory mirrored.objects mirrored.stage.files [] ≡ (ok tt, after)
unfolding restore mirror is_inside dest text_eq text_lt encode decode keys
restored_test = refl

-- A marker of a directory takes the place of the directory.
marker_test : write_bytes (codes "a/b") [] ((codes "a", []) ∷ []) ≡ raised os_error
unfolding write_bytes is_inside dest text_eq
marker_test = refl

-- Two keys with one file.
shared_test : dest (codes "a//b") ≡ dest (codes "a/b")
unfolding dest text_eq
shared_test = refl

tagging_test :
    (tagging_unavailable [] (some 501) ≡ some (codes "HTTP 501"))
    × (tagging_unavailable (codes "SlowDown") (some 503) ≡ none)
unfolding tagging_unavailable text_eq
tagging_test = (refl, refl)

mirror_restores_example :
    (last : Held) × (restore memory mirrored.objects mirrored.stage.files [] ≡ (ok tt, last))
    × ((key : Text) (o : Object)
        → starts_with (codes "www/") key ≡ true
        → view before key ≡ some o
        → (p : Object) × (view last key ≡ some p) × IsRestored o p)
unfolding mirror is_inside dest text_eq text_lt keys
mirror_restores_example =
    mirror_restores memory decode view memory-IsBucket cfg (codes "/s/s3.tar.gz") mirrored before
      before [] before-HasOwnFiles (λ put w. (insert put.key (object_of decode put) w, refl)) refl
      refl
