-- ===== src/Redaction/Keys.antt =====
-- logging_setup.py: the names of secrets.
use cs_backup_helper.Base.{
  ℕ, ◌+◌, ◌==◌, leb, Bool, ◌&&◌, ◌||◌, List, [], ◌∷◌, map, any, is_some, if◌then◌else◌,
}
use cs_backup_helper.Base.Text.{Text, codes, text_eq}
use cs_backup_helper.Base.Words.{find, ends_with}

-- The texts that `_SECRET_WORD` matches.
abbrev pub secret_words : List Text
secret_words =
    codes "password"
    ∷ codes "passwd"
    ∷ codes "passphrase"
    ∷ codes "secret"
    ∷ codes "token"
    ∷ codes "credential"
    ∷ codes "signature"
    ∷ codes "apikey"
    ∷ codes "api_key"
    ∷ codes "api.key"
    ∷ codes "api-key"
    ∷ codes "accesskey"
    ∷ codes "access_key"
    ∷ codes "access.key"
    ∷ codes "access-key"
    ∷ codes "privatekey"
    ∷ codes "private_key"
    ∷ codes "private.key"
    ∷ codes "private-key"
    ∷ []

-- `name.lower()`, as far as a letter of ASCII comes out: those of ASCII, and the Kelvin sign.
abbrev pub lower_code : ℕ → ℕ
lower_code c = if leb b'A' c && leb c b'Z' then c + 32 else if c == 8490 then b'k' else c

abbrev pub lowered : Text → Text
lowered = map lower_code

unfoldable pub is_sensitive_key : Text → Bool
unfolding find ends_with text_eq
is_sensitive_key name =
    let low = lowered name in
    any (λ word. is_some (find word low)) secret_words
    || (ends_with (codes "_key") low
        || ends_with (codes "-key") low
        || ends_with (codes ".key") low)
    || text_eq low (codes "sig")

-- `[a-z0-9_.-]` without regard to case; four letters outside ASCII count as such too.
unfoldable pub is_name_char : ℕ → Bool
is_name_char c =
    leb b'a' c && leb c b'z'
    || leb b'A' c && leb c b'Z'
    || leb b'0' c && leb c b'9'
    || c == b'_'
    || c == b'.'
    || c == b'-'
    || c == 304
    || c == 305
    || c == 383
    || c == 8490

abbrev pub is_quote : ℕ → Bool
is_quote c = c == b'"' || c == b'\''
