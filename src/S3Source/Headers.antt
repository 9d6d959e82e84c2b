-- ===== src/S3Source/Headers.antt =====
-- The content headers of an object, captured and passed on again.
use cs_backup_helper.Base.{
  ◌≡◌, refl, sym, ap, ◌∙◌, subst, inl, inr, false, Option, none, some, List, [], ◌∷◌, map, In,
  is_empty, if◌then◌else◌, arith,
}
use cs_backup_helper.Base.Text.{Text, text_eq, eq_iff, elem}
use cs_backup_helper.Base.Members.{elem-In, In-map}
use cs_backup_helper.Base.Dict.{Dict, lookup, lookup-insert, lookup-nil}
use cs_backup_helper.S3Source.{captured_headers, content_headers}
use cs_backup_helper.S3Source.Restore.{set_header, put_headers}

-- A header that is not empty.
abbrev pub shown : Option Text → Option Text
shown none = none
shown (some value) = if is_empty value then none else some value

abbrev passed : Option (Option Text) → Option Text
passed none = none
passed (some value) = shown value

abbrev or_before : Option Text → Option Text → Option Text
or_before none before = before
or_before (some value) before = some value

lookup-set_header :
    (header j : Text) (value : Option (Option Text)) (extra : Dict Text)
    → lookup j (set_header header value extra)
      ≡ (if text_eq header j then or_before (passed value) (lookup j extra) else lookup j extra)
lookup-set_header header j none extra = ground arith
lookup-set_header header j (some none) extra = ground arith
lookup-set_header header j (some (some value)) extra =
    ground (arith, lookup-insert header j value extra)

abbrev names : Dict Text → List Text
names = map (λ (field, header). header)

-- No header stands twice.
abbrev Apart : Dict Text → Type 0
Apart [] = Unit
Apart ((field, header) ∷ table) = (elem header (names table) ≡ false) × Apart table

module _ (entry : Dict (Option Text)) where
  put_headers_other :
      (table : Dict Text) (j : Text) (extra : Dict Text)
      → elem j (names table) ≡ false
      → lookup j (put_headers table entry extra) ≡ lookup j extra
  unfolding put_headers
  put_headers_other [] j extra h = refl
  put_headers_other ((field, header) ∷ table) j extra h =
      put_headers_other table j (set_header header (lookup field entry) extra) (ground arith)
      ∙ ground (
        arith,
        lookup-set_header header j (lookup field entry) extra,
        eq_iff header j,
        eq_iff j header,
      )

  put_headers_lem :
      (table : Dict Text) (field header : Text) (extra : Dict Text)
      → Apart table
      → In (field, header) table
      → lookup header extra ≡ none
      → lookup header (put_headers table entry extra) ≡ passed (lookup field entry)
  unfolding put_headers
  put_headers_lem [] field header extra apart m h = elim m [ ]
  put_headers_lem ((f, j) ∷ table) field header extra apart (inl e) h =
      let same_field : f ≡ field = ap (λ (p : Text × Text). p.0) (sym e) in
      let same : j ≡ header = ap (λ (p : Text × Text). p.1) (sym e) in
      put_headers_other table header (set_header j (lookup f entry) extra) (rw (← same) (apart.0))
      ∙ rw same_field
          (ground (arith, lookup-set_header j header (lookup field entry) extra, eq_iff j header))
  put_headers_lem ((f, j) ∷ table) field header extra apart (inr m) h =
      put_headers_lem table field header (set_header j (lookup f entry) extra) apart.1 m (
        ground (
          arith,
          lookup-set_header j header (lookup f entry) extra,
          eq_iff j header,
          elem-In header (names table) (In-map (λ (p : Text × Text). p.1) table (field, header) m),
        ))

-- The fields of the table, as they are captured.
abbrev Captured : Dict Text → Text × Text → Type 0
Captured headers (field, header) =
    lookup field (captured_headers headers) ≡ some (lookup header headers)

content_headers-Captured :
    (headers : Dict Text) (p : Text × Text) → In p content_headers → Captured headers p
unfolding captured_headers text_eq
content_headers-Captured headers p (inl e) = subst (Captured headers) (sym e) refl
content_headers-Captured headers p (inr (inl e)) = subst (Captured headers) (sym e) refl
content_headers-Captured headers p (inr (inr (inl e))) = subst (Captured headers) (sym e) refl
content_headers-Captured headers p (inr (inr (inr (inl e)))) = subst (Captured headers) (sym e) refl
content_headers-Captured headers p (inr (inr (inr (inr (inl e))))) =
    subst (Captured headers) (sym e) refl
content_headers-Captured headers p (inr (inr (inr (inr (inr n))))) = elim n [ ]

content_headers-Apart : Apart content_headers
unfolding text_eq
content_headers-Apart = (refl, (refl, (refl, (refl, (refl, tt)))))

-- What is passed on of the captured headers.
pub put_captured :
    (headers : Dict Text) (field header : Text)
    → In (field, header) content_headers
    → lookup header (put_headers content_headers (captured_headers headers) [])
      ≡ shown (lookup header headers)
put_captured headers field header m =
    put_headers_lem (captured_headers headers) content_headers field header [] content_headers-Apart
      m (lookup-nil header)
    ∙ ap passed (content_headers-Captured headers (field, header) m)
