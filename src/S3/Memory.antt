-- ===== src/S3/Memory.antt =====
-- A bucket in memory, in which every call but the completion of an unknown part succeeds: it keeps
-- the laws.
use cs_backup_helper.Base.{
  arith, ℕ, ◌<◌, ◌≡◌, ◌≢◌, ◌⊎◌, refl, subst, ap, ◌∙◌, inl, inr, Bool-cases, true, Option, none,
  some, List, [], ◌∷◌, length, ◌==◌, if◌then◌else◌,
}
use cs_backup_helper.Base.Text.{Text, codes, text_eq, eq_iff, eq_refl}
use cs_backup_helper.Base.Dict.{Dict, lookup, insert, erase, keys, lookup-insert}
use cs_backup_helper.Base.Result.{Result, ok, raised, key_error, ok-injective}
use cs_backup_helper.S3.{Client, Part}
use cs_backup_helper.S3.Chunks.{joined}
use cs_backup_helper.S3.Bucket.{Holds, Contents, IsBucket}

pub record Store : Type 0 where
  pub objects : Dict Text
  pub pieces : List (ℕ × Text)

abbrev size_of : Option Text → Result ℕ
size_of (some body) = ok (length body)
size_of none = raised key_error

abbrev body_of : Option Text → Result Text
body_of (some body) = ok body
body_of none = raised key_error

-- The tag of every part.
abbrev tag : Text
tag = codes "tag"

abbrev piece_of : ℕ → List (ℕ × Text) → Option (Text × Text)
piece_of n [] = none
piece_of n ((m, body) ∷ pieces) =
    let rest = piece_of n pieces in if m == n then some (tag, body) else rest

abbrev matching : Part → Option (Text × Text) → Option Text
matching p none = none
matching p (some (etag, body)) = if text_eq etag p.etag then some body else none

abbrev with_body : Option Text → Option (List Text) → Option (List Text)
with_body (some body) (some bodies) = some (body ∷ bodies)
with_body _ _ = none

abbrev bodies_of : List Part → List (ℕ × Text) → Option (List Text)
bodies_of [] pieces = some []
bodies_of (p ∷ parts) pieces =
    with_body (matching p (piece_of p.number pieces)) (bodies_of parts pieces)

abbrev completed : Text → Store → Option (List Text) → Result (Unit {0}) × Store
completed k w (some bodies) =
    (ok tt, record { objects = insert k (joined bodies) w.objects; pieces = [] })
completed k w none = (raised key_error, w)

abbrev pub client : Client
client = record {
  World = Store;
  head_bucket = λ b w. (ok true, w);
  create_bucket = λ b region w. (ok tt, w);
  put_object =
      λ b k body w. (ok tt, record { objects = insert k body w.objects; pieces = w.pieces });
  head_object = λ b k w. (size_of (lookup k w.objects), w);
  create_multipart_upload = λ b k w. (ok (codes "id"), record { objects = w.objects; pieces = [] });
  upload_part =
      λ b k n id body w. (ok tag, record { objects = w.objects; pieces = (n, body) ∷ w.pieces });
  complete_multipart_upload = λ b k id parts w. completed k w (bodies_of parts w.pieces);
  abort_multipart_upload = λ b k id w. (ok tt, record { objects = w.objects; pieces = [] });
  download_file = λ b k w. (body_of (lookup k w.objects), w);
  delete_object = λ b k w. (ok tt, record { objects = erase k w.objects; pieces = w.pieces });
  list_objects = λ b prefix w. (ok (keys w.objects), w);
  retrying = λ call w. call w;
}

inserted : (k : Text) (f : Text) (d : Dict Text) → lookup k (insert k f d) ≡ some f
inserted k f d = ground (arith, lookup-insert k k f d, eq_refl k)

insert-others : (k j f : Text) (d : Dict Text) → k ≢ j → lookup j (insert k f d) ≡ lookup j d
insert-others k j f d differ = ground (arith, lookup-insert k j f d, (eq_iff k j).0)

piece_of-first :
    (n : ℕ) (body : Text) (pieces : List (ℕ × Text))
    → piece_of n ((n, body) ∷ pieces) ≡ some (tag, body)
piece_of-first n body pieces = ground arith

piece_of-others :
    (n m : ℕ) (body : Text) (pieces : List (ℕ × Text))
    → m < n
    → piece_of m ((n, body) ∷ pieces) ≡ piece_of m pieces
piece_of-others n m body pieces h = ground arith

matching-some :
    (p : Part) (piece : Option (Text × Text)) (body : Text)
    → matching p piece ≡ some body
    → piece ≡ some (p.etag, body)
matching-some p none body h = cc
matching-some p (some (etag, other)) body h = elim (Bool-cases (text_eq etag p.etag)) [
  | inl e ↦
      let same : etag ≡ p.etag = (eq_iff etag p.etag).0 e in
      let g : other ≡ body = let k = rw e at h in cc in λ i. some (same i, g i)
  | inr e ↦ let k = rw e at h in cc
]

with_body-some :
    (first : Option Text) (others : Option (List Text)) (bodies : List Text)
    → with_body first others ≡ some bodies
    → (body : Text) × (rest : List Text) × (first ≡ some body)
      × (others ≡ some rest)
      × (body ∷ rest ≡ bodies)
with_body-some (some body) (some rest) bodies h = (body, rest, refl, refl, cc)
with_body-some (some body) none bodies h = cc
with_body-some none (some rest) bodies h = cc
with_body-some none none bodies h = cc

bodies_of-Holds :
    (id : Text) (parts : List Part) (pieces : List (ℕ × Text)) (bodies : List Text)
    → bodies_of parts pieces ≡ some bodies
    → Holds (λ _ n. piece_of n pieces) id parts bodies
bodies_of-Holds id [] pieces [] h = tt
bodies_of-Holds id [] pieces (body ∷ bodies) h = cc
bodies_of-Holds id (p ∷ parts) pieces bodies h =
    let (body, rest, one, others, same) =
      with_body-some (matching p (piece_of p.number pieces)) (bodies_of parts pieces) bodies h in
    subst (Holds (λ _ n. piece_of n pieces) id (p ∷ parts)) same (
      matching-some p (piece_of p.number pieces) body one,
      bodies_of-Holds id parts pieces rest others,
    )

completed-object :
    (k id : Text) (parts : List Part) (w w' : Store) (found : Option (List Text))
    → bodies_of parts w.pieces ≡ found
    → completed k w found ≡ (ok tt, w')
    → (bodies : List Text) × Holds (λ _ n. piece_of n w.pieces) id parts bodies
      × (lookup k w'.objects ≡ some (joined bodies))
completed-object k id parts w w' (some bodies) e h = (
  bodies,
  bodies_of-Holds id parts w.pieces bodies e,
  subst (λ (t : Result (Unit {0}) × Store). lookup k t.1.objects ≡ some (joined bodies)) h
      (inserted k (joined bodies) w.objects),
)
completed-object k id parts w w' none e h = cc

completed-pieces :
    (k : Text) (n : ℕ) (w : Store) (found : Option (List Text))
    → (piece_of n (completed k w found).1.pieces ≡ piece_of n w.pieces)
      ⊎ (piece_of n (completed k w found).1.pieces ≡ none)
completed-pieces k n w (some bodies) = inr refl
completed-pieces k n w none = inl refl

completed-others :
    (k j : Text) (w : Store) (found : Option (List Text))
    → k ≢ j
    → lookup j (completed k w found).1.objects ≡ lookup j w.objects
completed-others k j w (some bodies) differ = insert-others k j (joined bodies) w.objects differ
completed-others k j w none differ = refl

abbrev pub contents : Contents client
contents = record { object = λ w k. lookup k w.objects; part = λ w id n. piece_of n w.pieces }

pub client-IsBucket : (b : Text) → IsBucket client b contents
client-IsBucket b = record {
  retrying-keeps = λ call P step w h. step w h;
  retrying-last = λ call P step w h a w' e. (w, h, e);
  put-object = λ k body w w' h.
      subst (λ (t : Result (Unit {0}) × Store). lookup k t.1.objects ≡ some body) h
        (inserted k body w.objects);
  put-others = λ k j body w differ. insert-others k j body w.objects differ;
  head-objects = λ k j w. refl;
  create-objects = λ k j w. refl;
  upload_part-part = λ k id body etag n w w' h.
      subst (λ (t : Result Text × Store). piece_of n t.1.pieces ≡ some (tag, body)) h
        (piece_of-first n body w.pieces)
      ∙ ap (λ t. some (t, body)) (ok-injective tag etag (ap (λ t. t.0) h));
  upload_part-others = λ k id body n m w h. piece_of-others n m body w.pieces h;
  upload_part-objects = λ k id body j n w. refl;
  complete-object =
      λ k id parts w w' h. completed-object k id parts w w' (bodies_of parts w.pieces) refl h;
  complete-parts = λ k id parts n w. completed-pieces k n w (bodies_of parts w.pieces);
  complete-others =
      λ k j id parts w differ. completed-others k j w (bodies_of parts w.pieces) differ;
  abort-objects = λ k id j w. refl;
}
