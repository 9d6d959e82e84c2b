-- ===== src/Runner/Deliver/Complete.antt =====
-- An upload that every off-site destination took: all of them hold both files, whatever
-- destinations share a bucket.
use mathlib.Core.Bool.{false≢true}
use cs_backup_helper.Base.{
  map, ℕ, suc, ◌≤◌, ◌≡◌, ◌≢◌, refl, sym, ap, ◌∙◌, subst, inl, inr, Bool-cases, some, List, [], ◌∷◌,
  length, All, All-map, In, All-of_In, arith,
}
use cs_backup_helper.Base.Text.{Text, text_eq, eq_iff}
use cs_backup_helper.Base.Result.{Result, ok, raised}
use cs_backup_helper.Storage.{File, Storage, IsLawful}
use cs_backup_helper.Runner.{Problem, Artifact, manifest_name}
use cs_backup_helper.Runner.Deliver.{bucket, W, D, then_put, noted, put_both, upload}
use cs_backup_helper.Runner.Deliver.Puts.{Holds, HasSnapshot}

module _ (S : Storage) where
  -- No two keys of the given buckets share an address.
  abbrev pub NoAlias : List (Storage.Bucket S) → Type 0
  NoAlias stores =
      (b c : Storage.Bucket S) (j k : Text)
      → In b stores
      → In c stores
      → Storage.address S b j ≡ Storage.address S c k
      → j ≡ k

  abbrev pub OnAll : List (Storage.Bucket S) → W S → Text → File → Type 0
  OnAll stores w k f = All (λ b. Holds S w k f (bucket b)) stores

module _ (S : Storage) (L : IsLawful S) where
  -- A put that returned leaves every held file held, the one that it wrote again included.
  put-keeps :
      (b c : Storage.Bucket S) (j k : Text) (g f : File) (w : W S)
      → (Storage.put S b j g w).0 ≡ ok tt
      → (Storage.address S b j ≡ Storage.address S c k → g ≡ f)
      → Holds S w k f (bucket c)
      → Holds S (Storage.put S b j g w).1 k f (bucket c)
  put-keeps b c j k g f w done same h =
      elim (Bool-cases (text_eq (Storage.address S b j) (Storage.address S c k))) [
        | inl e ↦
            let p = (eq_iff (Storage.address S b j) (Storage.address S c k)).0 e in
            subst (λ a. Storage.object S (Storage.put S b j g w).1 a ≡ some f) p
              (L.put-object b j g w done ∙ ap some (same p))
        | inr e ↦
            L.put-others b j g w _ (λ p.
              false≢true (sym e ∙ (eq_iff (Storage.address S b j) (Storage.address S c k)).1 p))
            ∙ h
      ]

  module _ (artifact : Artifact) (sidecar : File) (sid : Text) where
    Compatible : Storage.Bucket S → Storage.Bucket S → Text → File → Type 0
    Compatible b c k f =
        (Storage.address S b artifact.name ≡ Storage.address S c k → artifact.content ≡ f)
        × (Storage.address S b (manifest_name sid) ≡ Storage.address S c k → sidecar ≡ f)

    then_put-done :
        (b : Storage.Bucket S) (first : Result (Unit {0}) × W S)
        → (then_put S (bucket b) (manifest_name sid) sidecar first).0 ≡ ok tt
        → (first.0 ≡ ok tt)
          × ((Storage.put S b (manifest_name sid) sidecar first.1).0 ≡ ok tt)
          × (then_put S (bucket b) (manifest_name sid) sidecar first
              ≡ Storage.put S b (manifest_name sid) sidecar first.1)
    then_put-done b (ok done, w) h = (refl, h, refl)
    then_put-done b (raised x, w) h = cc

    put_both-keeps :
        (b c : Storage.Bucket S) (k : Text) (f : File) (w : W S)
        → (put_both S (bucket b) artifact sidecar sid w).0 ≡ ok tt
        → Compatible b c k f
        → Holds S w k f (bucket c)
        → Holds S (put_both S (bucket b) artifact sidecar sid w).1 k f (bucket c)
    unfolding put_both Compatible
    put_both-keeps b c k f w done same h =
        let (one, two, e) =
          then_put-done b (Storage.put S b artifact.name artifact.content w) done in
        subst (λ p. Holds S p.1 k f (bucket c)) (sym e)
          (put-keeps b c (manifest_name sid) k sidecar f _ two same.1
            (put-keeps b c artifact.name k artifact.content f w one same.0 h))

    put_both-holds :
        (b : Storage.Bucket S) (w : W S)
        → (put_both S (bucket b) artifact sidecar sid w).0 ≡ ok tt
        → Compatible b b artifact.name artifact.content
        → HasSnapshot S artifact sidecar sid
            (put_both S (bucket b) artifact sidecar sid w).1
            (bucket b)
    unfolding put_both Compatible
    put_both-holds b w done same =
        let (one, two, e) =
          then_put-done b (Storage.put S b artifact.name artifact.content w) done in
        subst (λ p. HasSnapshot S artifact sidecar sid p.1 (bucket b)) (sym e)
          (
            put-keeps b b (manifest_name sid) artifact.name sidecar artifact.content _ two same.1
                (L.put-object b artifact.name artifact.content w one),
            L.put-object b (manifest_name sid) sidecar _ two,
          )

    -- Every destination took both files.
    AllDone : List (Storage.Bucket S) → W S → Type 0
    AllDone [] w = Unit
    AllDone (b ∷ bs) w =
        ((put_both S (bucket b) artifact sidecar sid w).0 ≡ ok tt)
        × AllDone bs (put_both S (bucket b) artifact sidecar sid w).1

    length-noted :
        (d : D S) (r : Result (Unit {0})) (rest : List (D S) × List Problem)
        → length (noted S d r rest).0 ≤ suc (length rest.0)
    length-noted d (ok done) (stored, more) = omega arith
    length-noted d (raised x) (stored, more) = omega arith

    length-upload-le :
        (bs : List (Storage.Bucket S)) (w : W S)
        → length (upload S (map bucket bs) artifact sidecar sid w).0.0 ≤ length bs
    unfolding upload
    length-upload-le [] w = omega arith
    length-upload-le (b ∷ bs) w =
        let (r, w1) = put_both S (bucket b) artifact sidecar sid w in
        let rest = upload S (map bucket bs) artifact sidecar sid w1 in
        omega (arith, length-upload-le bs w1, length-noted (bucket b) r rest.0)

    noted_complete :
        (d : D S) (r : Result (Unit {0})) (rest : List (D S) × List Problem) (n : ℕ)
        → length rest.0 ≤ n
        → suc n ≤ length (noted S d r rest).0
        → (r ≡ ok tt) × (n ≤ length rest.0)
    noted_complete d (ok done) (stored, more) n h k = (refl, omega arith)
    noted_complete d (raised x) (stored, more) n h k = absurd (omega arith)

    upload-AllDone :
        (bs : List (Storage.Bucket S)) (w : W S)
        → length bs ≤ length (upload S (map bucket bs) artifact sidecar sid w).0.0
        → AllDone bs w
    unfolding upload AllDone
    upload-AllDone [] w h = tt
    upload-AllDone (b ∷ bs) w h =
        let (r, w1) = put_both S (bucket b) artifact sidecar sid w in
        let rest = upload S (map bucket bs) artifact sidecar sid w1 in
        let (done, more) =
          noted_complete (bucket b) r rest.0 (length bs) (length-upload-le bs w1) h in
        (done, upload-AllDone bs w1 more)

    AllDone-keeps :
        (bs : List (Storage.Bucket S)) (c : Storage.Bucket S) (k : Text) (f : File) (w : W S)
        → AllDone bs w
        → All (λ b. Compatible b c k f) bs
        → Holds S w k f (bucket c)
        → Holds S (upload S (map bucket bs) artifact sidecar sid w).1 k f (bucket c)
    unfolding upload AllDone
    AllDone-keeps [] c k f w done same h = h
    AllDone-keeps (b ∷ bs) c k f w done same h =
        AllDone-keeps bs c k f _ done.1 same.1 (put_both-keeps b c k f w done.0 same.0 h)

    module _ (stores : List (Storage.Bucket S)) (clear : NoAlias S stores)
        (differ : manifest_name sid ≢ artifact.name) where
      Compatible-artifact :
          (b c : Storage.Bucket S)
          → In b stores
          → In c stores
          → Compatible b c artifact.name artifact.content
      unfolding Compatible
      Compatible-artifact b c m n =
          (λ _. refl, λ p. absurd (differ (clear b c (manifest_name sid) artifact.name m n p)))

      Compatible-sidecar :
          (b c : Storage.Bucket S)
          → In b stores
          → In c stores
          → Compatible b c (manifest_name sid) sidecar
      unfolding Compatible
      Compatible-sidecar b c m n = (
        λ p. absurd (differ (sym (clear b c artifact.name (manifest_name sid) m n p))),
        λ _. refl,
      )

      AllDone-holds :
          (bs : List (Storage.Bucket S)) (w : W S)
          → ((b : Storage.Bucket S) → In b bs → In b stores)
          → AllDone bs w
          → All
              (λ b.
                HasSnapshot S artifact sidecar sid
                  (upload S (map bucket bs) artifact sidecar sid w).1
                  (bucket b))
              bs
      unfolding upload AllDone
      AllDone-holds [] w sub done = tt
      AllDone-holds (b ∷ bs) w sub done =
          let m = sub b (inl refl) in
          let h = put_both-holds b w done.0 (Compatible-artifact b b m m) in
          (
            (
              AllDone-keeps bs b artifact.name artifact.content _ done.1
                  (All-of_In _ bs (λ c n. Compatible-artifact c b (sub c (inr n)) m)) h.0,
              AllDone-keeps bs b (manifest_name sid) sidecar _ done.1
                  (All-of_In _ bs (λ c n. Compatible-sidecar c b (sub c (inr n)) m)) h.1,
            ),
            AllDone-holds bs _ (λ c n. sub c (inr n)) done.1,
          )

      -- When as many destinations stored the files as there are, all of them hold both.
      pub upload_complete :
          (w : W S)
          → length stores ≤ length (upload S (map bucket stores) artifact sidecar sid w).0.0
          → OnAll S stores
              (upload S (map bucket stores) artifact sidecar sid w).1
              artifact.name
              artifact.content
            × OnAll S stores
                (upload S (map bucket stores) artifact sidecar sid w).1
                (manifest_name sid)
                sidecar
      upload_complete w h =
          let a = AllDone-holds stores w (λ b m. m) (upload-AllDone stores w h) in
          (All-map _ _ stores (λ b t. t.0) a, All-map _ _ stores (λ b t. t.1) a)
