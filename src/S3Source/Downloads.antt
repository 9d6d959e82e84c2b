-- ===== src/S3Source/Downloads.antt =====
-- The downloads of a bucket's objects.
use cs_backup_helper.Base.{
  ◌≡◌, refl, sym, ap, ◌∙◌, inl, inr, Option, some, Option-cases, List, [], ◌∷◌, ◌++◌, arith,
}
use cs_backup_helper.Base.Text.{Text}
use cs_backup_helper.Base.Dict.{Dict}
use cs_backup_helper.Base.Result.{ok, ok-injective}
use mathlib.Core.List.{append-eq-nil_iff}
use cs_backup_helper.Tools.{next_returns, returned}
use cs_backup_helper.S3Source.{
  Entry, Tagging, tag_set, client_error, other_error, Client, dict_of, captured_headers,
  tagging_unavailable,
}
use cs_backup_helper.S3Source.Bucket.{Object, IsBucket, Describes}
use cs_backup_helper.S3Source.Files.{write_bytes}
use cs_backup_helper.S3Source.Mirror.{Stage, entry_of, tags_of, tags, download_one}

module _ (C : Client) (decode : Text → Dict Text) (view : Client.World C → Text → Option Object)
    (law : IsBucket C decode view) where
  -- Tags without a refusal.
  tags_lem :
      (answer : Tagging) (stage stage' : Stage) (got : Option (Dict Text))
      → tags_of C stage answer ≡ ok (got, stage')
      → stage'.untagged ≡ []
      → (pairs : List (Text × Text)) × (answer ≡ tag_set pairs)
        × (got ≡ some (dict_of pairs))
        × (stage' ≡ stage)
  tags_lem (tag_set pairs) stage stage' got h clean =
      let same = ok-injective (some (dict_of pairs), stage) (got, stage') h in
      (pairs, refl, sym (ap (λ p. p.0) same), sym (ap (λ p. p.1) same))
  tags_lem (client_error code status e) stage stage' got h clean =
      elim (Option-cases (tagging_unavailable code status)) [
        | inl n ↦ absurd (ground arith)
        | inr (c, n) ↦
            let refused : stage'.untagged ≡ stage.untagged ++ (c ∷ []) = ground arith in
            absurd
              (ground (arith, ((append-eq-nil_iff {p = stage.untagged}).0 (sym refused ∙ clean)).1))
      ]
  tags_lem (other_error e) stage stage' got h clean = absurd (ground arith)

  -- An object that was downloaded, from a stage to the next.
  pub record Downloaded (key : Text) (entry : Entry) (stage stage' : Stage) (w v : Client.World C)
      : Type 0 where
    pub object : Object
    pub held : view w key ≡ some object
    pub named : entry.key ≡ key
    pub describes : Describes C decode view law entry object
    pub wrote : write_bytes key object.body stage.files ≡ ok stage'.files
    pub clean : stage.untagged ≡ []
    pub kept : view v ≡ view w

  pub download_one-Downloaded :
      (key : Text) (entry : Entry) (stage stage' : Stage) (w v : Client.World C)
      → download_one C key stage w ≡ (ok (entry, stage'), v)
      → stage'.untagged ≡ []
      → Downloaded key entry stage stage' w v
  unfolding download_one tags
  download_one-Downloaded key entry stage stage' w v h clean =
      let (resp, w1, got, h1) = next_returns (Client.get_object C key w) _ (entry, stage') v h in
      let (files, w2, wrote, h2) =
        next_returns (write_bytes key resp.body stage.files, w1) _ (entry, stage') v h1 in
      let (tagged, w3, tagging, h3) =
        next_returns (tags C key (record stage { files = files }) w2) _ (entry, stage') v h2 in
      let (both, end) = returned (entry_of C key resp tagged.0, tagged.1) (entry, stage') w3 v h3 in
      let same_entry : entry_of C key resp tagged.0 ≡ entry =
        ap (λ (p : Entry × Stage). p.0) both in
      let same_stage : tagged.1 ≡ stage' = ap (λ (p : Entry × Stage). p.1) both in
      let answer = Client.get_object_tagging C key w2 in
      let (pairs, was, tags, left) =
        tags_lem answer.0 (record stage { files = files }) tagged.1 tagged.0 (ap (λ p. p.0) tagging)
          (ap Stage.untagged same_stage ∙ clean) in
      let (o, held, same_body, same_metadata, same_headers) = law.get_describes key resp w w1 got in
      let view2 : view w2 ≡ view w =
        ap view (sym (ap (λ p. p.1) wrote)) ∙ sym (ap (λ p. view p.1) got) ∙ law.get_keeps key w in
      let tags_of_o =
        law.tags_describe key pairs o w2 answer.1 (λ i. (was i, answer.1))
          (ap (λ (f : Text → Option Object). f key) view2 ∙ held) in
      let step : record stage { files = files } ≡ stage' = sym left ∙ same_stage in
      record {
        object = o;
        held = held;
        named = sym (ap Entry.key same_entry);
        describes = record {
          the_metadata = sym (ap Entry.metadata same_entry) ∙ same_metadata;
          the_tags = sym (ap Entry.tags same_entry) ∙ tags ∙ ap some tags_of_o;
          the_headers = sym (ap Entry.headers same_entry) ∙ ap captured_headers same_headers;
        };
        wrote =
            ap (λ t. write_bytes key t stage.files) (sym same_body)
            ∙ ap (λ p. p.0) wrote
            ∙ ap (λ (t : Stage). ok t.files) step;
        clean = ap Stage.untagged step ∙ clean;
        kept =
            ap view (sym end)
            ∙ ap view (sym (ap (λ p. p.1) tagging))
            ∙ law.tags_keep key w2
            ∙ view2;
      }
