-- ===== src/Cli/Listing.antt =====
-- cli.py: what `list` shows, the local snapshots and those that are only off-site.
use cs_backup_helper.Base.{ℕ, none, some, List, [], ◌∷◌}
use cs_backup_helper.Base.Text.{Text}
use cs_backup_helper.Base.Dict.{Dict, lookup, insert}
use cs_backup_helper.Base.Sort.{sort_asc}

-- `sizes.setdefault(sid, 0)`, which keeps a size that is there.
unfoldable pub set_default : Text → Dict ℕ → Dict ℕ
set_default sid sizes = elim (lookup sid sizes) [ none ↦ insert sid 0 sizes | some size ↦ sizes ]

unfoldable pub with_remote : List Text → Dict ℕ → Dict ℕ
unfolding set_default
with_remote [] sizes = sizes
with_remote (sid ∷ sids) sizes = with_remote sids (set_default sid sizes)

-- `dict(list_snapshots(dd))`
unfoldable pub sizes_of : List (Text × ℕ) → Dict ℕ → Dict ℕ
sizes_of [] sizes = sizes
sizes_of ((sid, size) ∷ rows) sizes = sizes_of rows (insert sid size sizes)

-- The lines of `list`, ordered by id.
unfoldable pub list_cmd : List (Text × ℕ) → List Text → List (Text × ℕ)
unfolding with_remote sizes_of
list_cmd rows remote = sort_asc (λ (sid, _). sid) (with_remote remote (sizes_of rows []))
