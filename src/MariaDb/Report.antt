-- ===== src/MariaDb/Report.antt =====
-- sources/mariadb.py: what the second pass of a dump may report, in lines.
pub mod Closed
use cs_backup_helper.Base.{
  ℕ, ◌+◌, ◌==◌, Bool, true, false, List, [], ◌∷◌, not, ◌&&◌, ◌||◌, is_empty, is_some, any, keep_if,
  map, leb, Option, none, some, if◌then◌else◌, ◌≡◌, refl, In, any-In, Bool-cases, inl, inr, arith,
}
use cs_backup_helper.Base.Text.{Text, codes, starts_with}
use cs_backup_helper.Base.Words.{is_space, split_lines, strip, find}
use cs_backup_helper.Tools.{Completed, Tools}

-- `_PACKAGE_QUERY.search(line)`
unfoldable pub is_package_query : Text → Bool
unfolding find
is_package_query line =
    is_some (find (codes "Couldn't execute 'SHOW PACKAGE STATUS") line)
    || is_some (find (codes "Couldn't execute 'SHOW PACKAGE BODY STATUS") line)

-- Without regard to case; for a regular expression two letters outside ASCII are an `i` too.
abbrev pub folded : ℕ → ℕ
folded c = if leb b'A' c && leb c b'Z' then c + 32 else if (c == 304) || (c == 305) then b'i' else c

-- What follows `(\S+: )`, where a label of that kind stands first.
unfoldable pub after_label : Bool → Text → Option Text
unfolding is_space starts_with
after_label seen [] = none
after_label seen (c ∷ s) =
    let more = after_label true s in
    if is_space c
    then none
    else if seen && (c == b':') && starts_with (codes " ") s
    then some s
    else more

-- `\b` behind a word; `is_alnum` is `isalnum` of a code point.
module _ (is_alnum : ℕ → Bool) where
  abbrev pub ends_word : Text → Bool
  ends_word [] = true
  ends_word (c ∷ s) = not (is_alnum c || c == b'_')

  -- A word that starts a text in lower case and ends there.
  unfoldable pub starts_with_word : Text → Text → Bool
  starts_with_word [] s = ends_word s
  starts_with_word (c ∷ word) [] = false
  starts_with_word (c ∷ word) (d ∷ s) = (folded d == c) && starts_with_word word s

  abbrev pub is_notice_word : Text → Bool
  is_notice_word s = starts_with_word (codes "warning") s || starts_with_word (codes "notice") s

  abbrev pub labelled_notice : Option Text → Bool
  labelled_notice none = false
  labelled_notice (some []) = false
  labelled_notice (some (space ∷ s)) = is_notice_word s

  -- `_CLIENT_NOTICE.search(line)`
  unfoldable pub is_client_notice : Text → Bool
  unfolding starts_with_word after_label find
  is_client_notice line =
      is_notice_word line
      || labelled_notice (after_label false line)
      || is_some (find (codes "deprecated program name") (map folded line))

  unfoldable pub is_other : Text → Bool
  unfolding is_package_query is_client_notice
  is_other line = not (is_package_query line) && not (is_client_notice line)

  -- `_EX_MYSQLERR` is 2.
  unfoldable pub only_package_errors : Tools → Completed → Bool
  unfolding split_lines strip is_package_query is_other
  only_package_errors T result =
      let lines =
        keep_if (λ line. not (is_empty (strip line)))
          (split_lines (Tools.decode T result.stderr)) in
      (result.returncode == 2) && any is_package_query lines && not (any is_other lines)
