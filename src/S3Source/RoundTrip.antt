-- ===== src/S3Source/RoundTrip.antt =====
-- A bucket that is mirrored and restored.
use cs_backup_helper.Base.{
  ◌≡◌, refl, sym, ap, ◌∙◌, subst, inl, inr, true, Bool-cases, Option-cases, Option, some, List, [],
  ◌∷◌, In, arith,
}
use cs_backup_helper.Base.Text.{Text, text_eq, eq_iff, eq_refl, starts_with}
use cs_backup_helper.Base.Members.{In-of_sort_asc, In-sort_asc}
use cs_backup_helper.Base.Dict.{Dict, lookup}
use cs_backup_helper.Base.Result.{ok}
use cs_backup_helper.Tools.{next_returns, returned}
use cs_backup_helper.S3Source.{Put, S3SourceConfig, Entry, Client}
use cs_backup_helper.S3Source.Bucket.{
  Object, HasOwnFiles, object_of, IsBucket, IsRestored, Describes, put-IsRestored,
}
use cs_backup_helper.S3Source.Files.{is_inside, dest, read_bytes}
use cs_backup_helper.S3Source.Mirror.{Stage, Mirrored, download_keys, download_all, mirror}
use cs_backup_helper.Base.Sort.{sort_asc}
use cs_backup_helper.S3Source.Collected.{Collected, download_keys-Collected}
use cs_backup_helper.S3Source.Restore.{put_of, restore}

read_inside :
    (key body : Text) (files : Dict Text)
    → read_bytes key files ≡ ok body
    → (is_inside key ≡ true) × (lookup (dest key) files ≡ some body)
unfolding read_bytes
read_inside key body files h = elim (Bool-cases (is_inside key)) [
  | inr outside ↦ absurd (ground arith)
  | inl inside ↦ elim (Option-cases (lookup (dest key) files)) [
    | inl n ↦ absurd (ground arith)
    | inr (t, e) ↦ (inside, rw e (ground arith))
  ]
]

module _ (C : Client) (decode : Text → Dict Text) (view : Client.World C → Text → Option Object)
    (law : IsBucket C decode view) where
  -- A world where a key has the object again.
  Returned : Text → Object → Client.World C → Type 0
  Returned key o w = (p : Object) × (view w key ≡ some p) × IsRestored o p

  module _ (held : Text → Option Object) (files : Dict Text) where
    -- What is known of an entry: the object that it describes, and its file.
    abbrev IsGenuine : Entry → Type 0
    IsGenuine e =
        (o : Object) × (held e.key ≡ some o)
        × Describes C decode view law e o
        × (is_inside e.key ≡ true → lookup (dest e.key) files ≡ some o.body)

    put-Returned :
        (e : Entry) (body : Text) (w v : Client.World C)
        → IsGenuine e
        → read_bytes e.key files ≡ ok body
        → Client.put_object C (put_of C e body) w ≡ (ok tt, v)
        → (o : Object) → held e.key ≡ some o
        → Returned e.key o v
    unfolding Returned
    put-Returned e body w v (o', held_e, describes, file) read put o there =
        let same : o' ≡ o = ground arith in
        let (inside, stored) = read_inside e.key body files read in
        let body_same : body ≡ o.body = ground (arith, file inside, ap Object.body same) in
        let describes_o = subst (Describes C decode view law e) same describes in
        (
          object_of decode (put_of C e body),
          law.put_stores (put_of C e body) w v put e.key ∙ rw (eq_refl e.key) refl,
          put-IsRestored C decode view law e o body describes_o body_same,
        )

    put_keeps :
        (e : Entry) (body : Text) (w v : Client.World C) (key : Text) (o : Object)
        → IsGenuine e
        → read_bytes e.key files ≡ ok body
        → Client.put_object C (put_of C e body) w ≡ (ok tt, v)
        → held key ≡ some o
        → Returned key o w
        → Returned key o v
    unfolding Returned
    put_keeps e body w v key o genuine read put there (p, stands, restored) =
        elim (Bool-cases (text_eq e.key key)) [
          | inl same ↦
              let here = (eq_iff e.key key).0 same in
              subst (λ k. Returned k o v) here
                (put-Returned e body w v genuine read put o (ap held here ∙ there))
          | inr other ↦
              (p, law.put_stores (put_of C e body) w v put key ∙ rw other stands, restored)
        ]

    AllGenuine : List Entry → Type 0
    AllGenuine entries = (e : Entry) → In e entries → IsGenuine e

    restore_all-Returned :
        (entries : List Entry) (w v : Client.World C) (key : Text) (o : Object)
        → AllGenuine entries
        → restore C entries files w ≡ (ok tt, v)
        → held key ≡ some o
        → (Returned key o w → Returned key o v)
          × ((e : Entry) → In e entries → e.key ≡ key → Returned key o v)
    unfolding restore AllGenuine
    restore_all-Returned [] w v key o genuine h there =
        (λ back. subst (Returned key o) (ap (λ p. p.1) h) back, λ e m same. elim m [ ])
    restore_all-Returned (e ∷ entries) w v key o genuine h there =
        let (body, w1, read, h1) = next_returns (read_bytes e.key files, w) _ tt v h in
        let (_, w2, put, h2) = next_returns (Client.put_object C (put_of C e body) w1) _ tt v h1 in
        let step = ap (λ p. p.0) read in
        let known = genuine e (inl refl) in
        let (keeps, returns) =
          restore_all-Returned entries w2 v key o (λ x m. genuine x (inr m)) h2 there in
        (
          λ back. keeps (
              put_keeps e body w1 w2 key o known step put there
                (subst (Returned key o) (ap (λ p. p.1) read) back)),
          λ x m same. elim m [
            | inl q ↦
                let here = ap Entry.key (sym q) ∙ same in
                keeps (
                  subst (λ k. Returned k o w2) here
                    (put-Returned e body w1 w2 known step put o (ap held here ∙ there)))
            | inr i ↦ returns x i same
          ],
        )

  restore-Returned :
      (held : Text → Option Object) (own : HasOwnFiles held) (keys : List Text)
      (entries : List Entry) (stage stage' : Stage) (done later last : Client.World C)
      → Collected C decode view law held own keys entries stage stage' done
      → restore C (sort_asc (λ (e : Entry). e.key) entries) stage'.files later ≡ (ok tt, last)
      → (key : Text) (o : Object) → In key keys
      → held key ≡ some o
      → Returned key o last
  unfolding AllGenuine
  restore-Returned held own keys entries stage stage' done later last all restored key o m there =
      let by_key = λ (e : Entry). e.key in
      let (e, i, at) = all.found key m in
      (restore_all-Returned held stage'.files (sort_asc by_key entries) later last key o
          (λ x j.
            let i' = In-of_sort_asc by_key entries x j in
            let (object, held_x, describes) = all.genuine x i' in
            (object, held_x, describes, λ inside. all.holds x i' inside object held_x))
          restored there).1
        e (In-sort_asc by_key entries e i) at

  -- Every file of a mirror can be read.
  read-Collected :
      (held : Text → Option Object) (own : HasOwnFiles held) (keys : List Text)
      (entries : List Entry) (stage stage' : Stage) (done : Client.World C)
      → Collected C decode view law held own keys entries stage stage' done
      → (e : Entry) → In e (sort_asc (λ (x : Entry). x.key) entries)
      → (body : Text) × (read_bytes e.key stage'.files ≡ ok body)
  unfolding read_bytes
  read-Collected held own keys entries stage stage' done all e m =
      let i = In-of_sort_asc (λ (x : Entry). x.key) entries e m in
      let (o, there, describes) = all.genuine e i in
      let inside = own.inside e.key o there in
      (o.body, rw (inside, all.holds e i inside o there) refl)

  restore_total :
      (files : Dict Text) (entries : List Entry) (w : Client.World C)
      → ((put : Put) (w : Client.World C)
          → (v : Client.World C) × (Client.put_object C put w ≡ (ok tt, v)))
      → ((e : Entry) → In e entries → (body : Text) × (read_bytes e.key files ≡ ok body))
      → (last : Client.World C) × (restore C entries files w ≡ (ok tt, last))
  unfolding restore
  restore_total files [] w puts reads = (w, refl)
  restore_total files (e ∷ entries) w puts reads =
      let (body, read) = reads e (inl refl) in
      let (v, put) = puts (put_of C e body) w in
      let (last, h) = restore_total files entries v puts (λ x m. reads x (inr m)) in
      (last, rw (read, put) h)

  -- A mirror without a warning can be restored into a bucket that may hold anything, and then each
  -- object of the mirrored bucket, below the prefix, stands there again with its body, its user
  -- metadata, its tags and each content header that is not empty; that is, where each key has a file
  -- of its own in the staging dir, and the requests to put an object succeed.
  pub mirror_restores :
      (cfg : S3SourceConfig) (out : Text) (m : Mirrored) (start done later : Client.World C)
      → HasOwnFiles (view start)
      → ((put : Put) (w : Client.World C)
          → (v : Client.World C) × (Client.put_object C put w ≡ (ok tt, v)))
      → mirror C cfg out start ≡ (ok m, done)
      → m.stage.untagged ≡ []
      → (last : Client.World C) × (restore C m.objects m.stage.files later ≡ (ok tt, last))
        × ((key : Text) (o : Object)
            → starts_with cfg.prefix key ≡ true
            → view start key ≡ some o
            → (p : Object) × (view last key ≡ some p) × IsRestored o p)
  unfolding mirror download_all Returned
  mirror_restores cfg out m start done later own puts mirrored clean =
      let by_key = λ (e : Entry). e.key in
      let empty : Stage = record { files = []; untagged = [] } in
      let (m0, w1, downloaded, h1) =
        next_returns (download_all C cfg.prefix start) _ m done mirrored in
      let (_, w2, _, h2) =
        next_returns (Client.create_bundle C out m0.objects m0.stage.files w1) _ m done h1 in
      let (keys, v1, listed, h3) =
        next_returns (Client.list_objects C cfg.prefix start) _ m0 w1 downloaded in
      let (got, v2, fetched, h4) = next_returns (download_keys C keys empty v1) _ m0 w1 h3 in
      let bundled = (returned _ m0 v2 w1 h4).0 ∙ (returned m0 m w2 done h2).0 in
      let all =
        download_keys-Collected C decode view law (view start) own keys got.0 empty got.1 v1 v2
          (sym (ap (λ p. view p.1) listed) ∙ law.list_keeps cfg.prefix start) fetched
          (ap (λ (x : Mirrored). x.stage.untagged) bundled ∙ clean) in
      let (last, restored) =
        restore_total got.1.files (sort_asc by_key got.0) later puts
          (read-Collected (view start) own keys got.0 empty got.1 v2 all) in
      (
        last,
        subst (λ (x : Mirrored). restore C x.objects x.stage.files later ≡ (ok tt, last)) bundled
            restored,
        λ key o below there.
            restore-Returned (view start) own keys got.0 empty got.1 v2 later last all restored key
              o (law.list_all cfg.prefix keys start v1 listed key o below there) there,
      )
