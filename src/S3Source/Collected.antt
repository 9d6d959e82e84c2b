-- ===== src/S3Source/Collected.antt =====
-- What the downloads of a bucket leave: entries of the objects, and files with their bodies.
use cs_backup_helper.Base.{
  ◌≡◌, refl, sym, ap, ◌∙◌, subst, inl, inr, ◌⊎◌, true, false, ◌||◌, Bool-cases, Option, some, List,
  [], ◌∷◌, In, is_empty, arith,
}
use cs_backup_helper.Base.Text.{Text, text_eq, eq_iff, eq_refl}
use cs_backup_helper.Base.Dict.{Dict, lookup, insert, lookup-insert}
use cs_backup_helper.Base.Result.{ok, ok-injective}
use cs_backup_helper.Tools.{next_returns, returned}
use cs_backup_helper.S3Source.{Entry, Client}
use cs_backup_helper.S3Source.Bucket.{Object, HasOwnFiles, IsBucket, Describes}
use cs_backup_helper.S3Source.Files.{is_inside, dest, clashes, write_bytes}
use cs_backup_helper.S3Source.Mirror.{Stage, download_one, download_keys}
use cs_backup_helper.S3Source.Downloads.{Downloaded, download_one-Downloaded}

written_or_outside :
    (key body : Text) (files files' : Dict Text)
    → write_bytes key body files ≡ ok files'
    → ((is_inside key ≡ true) × (files' ≡ insert (dest key) body files))
      ⊎ ((is_inside key ≡ false) × (files' ≡ files))
unfolding write_bytes
written_or_outside key body files files' h = elim (Bool-cases (is_inside key)) [
  | inr outside ↦ inr (outside, sym (ok-injective files files' (rw outside at h)))
  | inl inside ↦ elim (Bool-cases (is_empty (dest key) || clashes (dest key) files)) [
    | inl clash ↦ absurd (ground arith)
    | inr free ↦ inl (inside, ground arith)
  ]
]

module _ (C : Client) (decode : Text → Dict Text) (view : Client.World C → Text → Option Object)
    (law : IsBucket C decode view) (held : Text → Option Object) (own : HasOwnFiles held) where
  -- A key's file has the body of the object.
  abbrev pub Holds : Text → Dict Text → Type 0
  Holds key files =
      is_inside key ≡ true
      → (o : Object) → held key ≡ some o
      → lookup (dest key) files ≡ some o.body

  write_keeps :
      (j : Text) (o : Object) (files files' : Dict Text) (k : Text)
      → held j ≡ some o
      → is_inside j ≡ true
      → files' ≡ insert (dest j) o.body files
      → Holds k files
      → Holds k files'
  write_keeps j o files files' k there inside_j wrote before inside p found =
      elim (Bool-cases (text_eq (dest j) (dest k))) [
        | inl same ↦
            let one = own.apart j k o p there found ((eq_iff (dest j) (dest k)).0 same) in
            let object : o ≡ p = ground arith in
            rw wrote
              (ground (arith, lookup-insert (dest j) (dest k) o.body files, ap Object.body object))
        | inr other ↦
            rw wrote
              (ground (arith, lookup-insert (dest j) (dest k) o.body files, before inside p found))
      ]

  insert-Holds :
      (j : Text) (o : Object) (files : Dict Text)
      → held j ≡ some o
      → Holds j (insert (dest j) o.body files)
  insert-Holds j o files there inside p found =
      let object : o ≡ p = ground arith in
      ground (
        arith,
        lookup-insert (dest j) (dest j) o.body files,
        eq_refl (dest j),
        ap Object.body object,
      )

  after_write :
      (j : Text) (o : Object) (files files' : Dict Text)
      → held j ≡ some o
      → write_bytes j o.body files ≡ ok files'
      → ((k : Text) → Holds k files → Holds k files') × Holds j files'
  after_write j o files files' there h = elim (written_or_outside j o.body files files' h) [
    | inr (outside, same) ↦
        (λ k before. subst (Holds k) (sym same) before, λ inside p found. absurd (ground arith))
    | inl (inside, wrote) ↦ (
      λ k before. write_keeps j o files files' k there inside wrote before,
      subst (Holds j) (sym wrote) (insert-Holds j o files there),
    )
  ]

  -- What the downloads of some keys leave.
  pub record Collected (keys : List Text) (entries : List Entry) (stage stage' : Stage)
      (v : Client.World C) : Type 0 where
    pub clean : stage.untagged ≡ []
    pub kept : view v ≡ held
    pub found : (k : Text) → In k keys → (e : Entry) × In e entries × (e.key ≡ k)
    pub genuine :
        (e : Entry)
        → In e entries
        → (o : Object) × (held e.key ≡ some o) × Describes C decode view law e o
    pub keeps : (k : Text) → Holds k stage.files → Holds k stage'.files
    pub holds : (e : Entry) → In e entries → Holds e.key stage'.files

  Collected-cons :
      (key : Text) (keys : List Text) (entry : Entry) (entries : List Entry)
      (stage between stage' : Stage) (w u v : Client.World C)
      → view w ≡ held
      → Downloaded C decode view law key entry stage between w u
      → Collected keys entries between stage' v
      → Collected (key ∷ keys) (entry ∷ entries) stage stage' v
  Collected-cons key keys entry entries stage between stage' w u v at_start one more =
      let there : held key ≡ some one.object =
        ap (λ (f : Text → Option Object). f key) (sym at_start) ∙ one.held in
      let (keeps, holds) = after_write key one.object stage.files between.files there one.wrote in
      record {
        clean = one.clean;
        kept = more.kept;
        found = λ k m. elim m [
          | inl e ↦ (entry, inl refl, one.named ∙ sym e)
          | inr i ↦ let (x, j, n) = more.found k i in (x, inr j, n)
        ];
        genuine = λ x m. elim m [
          | inl e ↦ (
            one.object,
            ap held (ap Entry.key e ∙ one.named) ∙ there,
            subst (λ y. Describes C decode view law y one.object) (sym e) one.describes,
          )
          | inr i ↦ more.genuine x i
        ];
        keeps = λ k before. more.keeps k (keeps k before);
        holds = λ x m. elim m [
          | inl e ↦
              subst (λ k. Holds k stage'.files) (sym (ap Entry.key e ∙ one.named))
                (more.keeps key holds)
          | inr i ↦ more.holds x i
        ];
      }

  download_keys_clean :
      (keys : List Text) (entries : List Entry) (stage stage' : Stage) (w v : Client.World C)
      → download_keys C keys stage w ≡ (ok (entries, stage'), v)
      → stage'.untagged ≡ []
      → stage.untagged ≡ []
  unfolding download_keys
  download_keys_clean [] entries stage stage' w v h clean =
      let (both, end) = returned ([], stage) (entries, stage') w v h in
      ap (λ (p : List Entry × Stage). p.1.untagged) both ∙ clean
  download_keys_clean (key ∷ keys) entries stage stage' w v h clean =
      let (one, w1, got, h1) = next_returns (download_one C key stage w) _ (entries, stage') v h in
      let (more, w2, later, h2) =
        next_returns (download_keys C keys one.1 w1) _ (entries, stage') v h1 in
      let (both, end) = returned (one.0 ∷ more.0, more.1) (entries, stage') w2 v h2 in
      let clean_more = ap (λ (p : List Entry × Stage). p.1.untagged) both ∙ clean in
      let clean_one = download_keys_clean keys more.0 one.1 more.1 w1 w2 later clean_more in
      let first =
        download_one-Downloaded C decode view law key one.0 stage one.1 w w1 got clean_one in
      first.clean

  pub download_keys-Collected :
      (keys : List Text) (entries : List Entry) (stage stage' : Stage) (w v : Client.World C)
      → view w ≡ held
      → download_keys C keys stage w ≡ (ok (entries, stage'), v)
      → stage'.untagged ≡ []
      → Collected keys entries stage stage' v
  unfolding download_keys
  download_keys-Collected [] entries stage stage' w v at_start h clean =
      let (both, end) = returned ([], stage) (entries, stage') w v h in
      let none_left : entries ≡ [] = sym (ap (λ (p : List Entry × Stage). p.0) both) in
      let same : stage ≡ stage' = ap (λ (p : List Entry × Stage). p.1) both in
      record {
        clean = ap Stage.untagged same ∙ clean;
        kept = ap view (sym end) ∙ at_start;
        found = λ k m. elim m [ ];
        genuine = λ e m. elim (subst (In e) none_left m) [ ];
        keeps = λ k before. subst (λ (s : Stage). Holds k s.files) same before;
        holds = λ e m. elim (subst (In e) none_left m) [ ];
      }
  download_keys-Collected (key ∷ keys) entries stage stage' w v at_start h clean =
      let (one, w1, got, h1) = next_returns (download_one C key stage w) _ (entries, stage') v h in
      let (more, w2, later, h2) =
        next_returns (download_keys C keys one.1 w1) _ (entries, stage') v h1 in
      let (both, end) = returned (one.0 ∷ more.0, more.1) (entries, stage') w2 v h2 in
      let same_list : one.0 ∷ more.0 ≡ entries = ap (λ (p : List Entry × Stage). p.0) both in
      let same : more.1 ≡ stage' = ap (λ (p : List Entry × Stage). p.1) both in
      let clean_more = ap Stage.untagged same ∙ clean in
      let first =
        download_one-Downloaded C decode view law key one.0 stage one.1 w w1 got
          (download_keys_clean keys more.0 one.1 more.1 w1 w2 later clean_more) in
      let rest =
        download_keys-Collected keys more.0 one.1 more.1 w1 w2 (first.kept ∙ at_start) later
          clean_more in
      let all =
        Collected-cons key keys one.0 more.0 stage one.1 more.1 w w1 w2 at_start first rest in
      subst (Collected (key ∷ keys) entries stage stage') end (
        subst (λ s. Collected (key ∷ keys) entries stage s w2) same
          (subst (λ l. Collected (key ∷ keys) l stage more.1 w2) same_list all))
