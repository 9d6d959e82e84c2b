-- ===== src/S3/Parts.antt =====
-- The parts of an upload hold the chunks of the file.
use cs_backup_helper.Base.{
  ℕ, suc, ◌≡◌, ◌⊎◌, refl, sym, ap, ◌∙◌, subst, inl, inr, Option, none, some, List, [], ◌∷◌, arith,
}
use cs_backup_helper.Base.Text.{Text}
use cs_backup_helper.Base.Result.{Result, ok, raised, ok-injective}
use cs_backup_helper.S3.{S3Config, Part, Client, upload_parts, part_then}
use cs_backup_helper.S3.Uploads.{next_of-returned}
use cs_backup_helper.S3.Bucket.{Holds, Contents, IsBucket, upload_parts-keeps}

-- Each listed part is the one of that body, or is gone.
abbrev pub MayHold : (Text → ℕ → Option (Text × Text)) → Text → List Part → List Text → Type 0
MayHold part id [] [] = Unit
MayHold part id (p ∷ parts) (body ∷ bodies) =
    ((part id p.number ≡ some (p.etag, body)) ⊎ (part id p.number ≡ none))
    × MayHold part id parts bodies
MayHold part id [] (body ∷ bodies) = ⊥
MayHold part id (p ∷ parts) [] = ⊥

pub Holds-MayHold :
    (part : Text → ℕ → Option (Text × Text)) (id : Text) (parts : List Part) (bodies : List Text)
    → Holds part id parts bodies
    → MayHold part id parts bodies
Holds-MayHold part id [] [] h = tt
Holds-MayHold part id (p ∷ parts) (body ∷ bodies) (e, h) =
    (inl e, Holds-MayHold part id parts bodies h)
Holds-MayHold part id [] (body ∷ bodies) h = h
Holds-MayHold part id (p ∷ parts) [] h = h

pub same_bodies :
    (part : Text → ℕ → Option (Text × Text)) (id : Text) (parts : List Part)
    (bodies others : List Text)
    → MayHold part id parts bodies
    → Holds part id parts others
    → others ≡ bodies
same_bodies part id [] [] [] m h = refl
same_bodies part id (p ∷ parts) (body ∷ bodies) (other ∷ others) (inl e, m) (f, h) =
    let q : other ≡ body = cc in
    ap (λ x. x ∷ others) q ∙ ap (λ xs. body ∷ xs) (same_bodies part id parts bodies others m h)
same_bodies part id (p ∷ parts) (body ∷ bodies) (other ∷ others) (inr e, m) (f, h) = cc
same_bodies part id [] (body ∷ bodies) others m h = elim m [ ]
same_bodies part id [] [] (other ∷ others) m h = elim h [ ]
same_bodies part id (p ∷ parts) [] others m h = elim m [ ]
same_bodies part id (p ∷ parts) (body ∷ bodies) [] m h = elim h [ ]

pub MayHold-step :
    (part after : Text → ℕ → Option (Text × Text)) (id : Text) (parts : List Part)
    (bodies : List Text)
    → ((n : ℕ) → (after id n ≡ part id n) ⊎ (after id n ≡ none))
    → MayHold part id parts bodies
    → MayHold after id parts bodies
MayHold-step part after id [] [] step h = tt
MayHold-step part after id (p ∷ parts) (body ∷ bodies) step (e, h) =
    (kept (step p.number) e, MayHold-step part after id parts bodies step h)
  where
    kept :
        (after id p.number ≡ part id p.number) ⊎ (after id p.number ≡ none)
        → (part id p.number ≡ some (p.etag, body)) ⊎ (part id p.number ≡ none)
        → (after id p.number ≡ some (p.etag, body)) ⊎ (after id p.number ≡ none)
    kept (inr gone) e = inr gone
    kept (inl same) (inl e) = inl (same ∙ e)
    kept (inl same) (inr e) = inr (same ∙ e)
MayHold-step part after id [] (body ∷ bodies) step h = h
MayHold-step part after id (p ∷ parts) [] step h = h

module _ (C : Client) (cfg : S3Config) (V : Contents C) (B : IsBucket C cfg.bucket V) where
  part_then-returned :
      (n : ℕ) (t : Result (List Part) × Client.World C) (etag : Text) (parts : List Part)
      (w' : Client.World C)
      → part_then C cfg n t etag ≡ (ok parts, w')
      → (more : List Part) × (t ≡ (ok more, w'))
        × (parts ≡ record { etag = etag; number = n } ∷ more)
  part_then-returned n (ok more, v) etag parts w' h =
      (more, ap (λ t. (ok more, t.1)) h, sym (ok-injective _ _ (ap (λ t. t.0) h)))
  part_then-returned n (raised e, v) etag parts w' h = cc

  pub upload_parts-Holds :
      (key id : Text) (first : ℕ) (pieces : List Text) (w w' : Client.World C) (parts : List Part)
      → upload_parts C cfg key id first pieces w ≡ (ok parts, w')
      → Holds (V.part w') id parts pieces
  unfolding upload_parts
  upload_parts-Holds key id first [] w w' parts h =
      subst (λ ps. Holds (V.part w') id ps []) (ok-injective _ _ (ap (λ t. t.0) h)) tt
  upload_parts-Holds key id first (chunk ∷ rest) w w' parts h =
      let upload = Client.upload_part C cfg.bucket key first id chunk in
      let (etag, v, one, two) =
        next_of-returned C (Client.retrying C upload w)
          (λ etag v. part_then C cfg first (upload_parts C cfg key id (suc first) rest v) etag)
          parts w' h in
      let (more, three, same) =
        part_then-returned first (upload_parts C cfg key id (suc first) rest v) etag parts w' two in
      let (u, done, last) = B.retrying-last upload (λ x. Unit {0}) (λ x k. tt) w tt etag v one in
      let held : V.part v id first ≡ some (etag, chunk) =
        B.upload_part-part key id chunk etag first u v last in
      let still =
        upload_parts-keeps C cfg V B (λ x. V.part x id first ≡ some (etag, chunk)) key id
          (suc first) rest
          (λ n body x later k. B.upload_part-others key id body n first x (omega arith) ∙ k) v
          held in
      subst (λ ps. Holds (V.part w') id ps (chunk ∷ rest)) (sym same)
        (
          subst (λ t. V.part t.1 id first ≡ some (etag, chunk)) three still,
          upload_parts-Holds key id (suc first) rest v w' more three,
        )
