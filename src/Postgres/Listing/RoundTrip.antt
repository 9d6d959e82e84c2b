-- ===== src/Postgres/Listing/RoundTrip.antt =====
-- What `psql` prints with NUL separators reads back as the rows.
use cs_backup_helper.Base.{◌==◌, false, ◌≡◌, refl, ap, ◌∙◌, List, [], ◌∷◌, ◌++◌, All, arith, any}
use cs_backup_helper.Base.Text.{Text}
use cs_backup_helper.Base.Words.{split_at}
use cs_backup_helper.Postgres.Listing.{Row, nul_rows, rows_of, without_blank_end}

-- Each field ends with a NUL.
abbrev pub printed_fields : List Text → Text
printed_fields [] = []
printed_fields (f ∷ fs) = f ++ (0 ∷ printed_fields fs)

abbrev pub row_fields : List Row → List Text
row_fields [] = []
row_fields ((a, b, c, d, e, f) ∷ rows) = a ∷ b ∷ c ∷ d ∷ e ∷ f ∷ row_fields rows

abbrev pub print_rows : List Row → Text
print_rows rows = printed_fields (row_fields rows)

abbrev pub HasNoNul : Text → Type 0
HasNoNul t = any (λ c. c == 0) t ≡ false

split_at-field : (f rest : Text) → HasNoNul f → split_at 0 (f ++ (0 ∷ rest)) ≡ f ∷ split_at 0 rest
unfolding split_at
split_at-field [] rest h = refl
split_at-field (c ∷ f) rest h = ground (arith, split_at-field f rest)

split_at-printed :
    (fs : List Text) → All HasNoNul fs → split_at 0 (printed_fields fs) ≡ fs ++ ([] ∷ [])
unfolding split_at
split_at-printed [] h = refl
split_at-printed (f ∷ fs) h =
    split_at-field f (printed_fields fs) h.0 ∙ ap (λ l. f ∷ l) (split_at-printed fs h.1)

without_blank_end-append : (fs : List Text) → without_blank_end (fs ++ ([] ∷ [])) ≡ fs
unfolding without_blank_end
without_blank_end-append [] = refl
without_blank_end-append (f ∷ []) = refl
without_blank_end-append (f ∷ g ∷ fs) = ap (λ l. f ∷ l) (without_blank_end-append (g ∷ fs))

rows_of-row_fields : (rows : List Row) → rows_of (row_fields rows) ≡ rows
unfolding rows_of
rows_of-row_fields [] = refl
rows_of-row_fields (row ∷ rows) = ap (λ l. row ∷ l) (rows_of-row_fields rows)

-- Rows whose fields hold no NUL, as no identifier of PostgreSQL does, read back as they are from
-- what psql prints for them, whatever else the fields hold.
pub nul_rows-print :
    (rows : List Row) → All HasNoNul (row_fields rows) → nul_rows (print_rows rows) ≡ rows
unfolding nul_rows
nul_rows-print rows h =
    ap (λ l. rows_of (without_blank_end l)) (split_at-printed (row_fields rows) h)
    ∙ ap rows_of (without_blank_end-append (row_fields rows))
    ∙ rows_of-row_fields rows
