-- ===== src/Encryption.antt =====
-- encryption/engine.py: an archive is encrypted and decrypted by a tool that runs as a process.
use cs_backup_helper.Base.{ℕ, zero, suc, List, [], ◌∷◌, ◌++◌, is_empty, if◌then◌else◌}
use cs_backup_helper.Base.Text.{Text, codes}
use cs_backup_helper.Base.Result.{encryption_error, Result, ok, raised}
use cs_backup_helper.Config.{EncryptionMode, plain, age, gpg}

-- `run(argv, capture_output=True)` gives the exit code.
abbrev pub Run : Type 0 → Type 0
Run W = List Text → W → Result ℕ × W

module _ {W : Type 0} (run : Run W) where
  abbrev checked : Text → Result ℕ × W → Result Text × W
  checked out (ok zero, w) = (ok out, w)
  checked out (ok (suc code), w) = (raised encryption_error, w)
  checked out (raised e, w) = (raised e, w)

  -- The output of the tool, once it ended well.
  unfoldable pub run_checked : List Text → Text → W → Result Text × W
  run_checked argv out w = checked out (run argv w)

  abbrev pub encrypt_argv : EncryptionMode → Text → Text → Text → List Text
  encrypt_argv plain recipient out path = []
  encrypt_argv age recipient out path =
      codes "age"
      ∷ codes "--encrypt"
      ∷ codes "--recipient"
      ∷ recipient
      ∷ codes "--output"
      ∷ out
      ∷ path
      ∷ []
  encrypt_argv gpg recipient out path =
      codes "gpg"
      ∷ codes "--batch"
      ∷ codes "--yes"
      ∷ codes "--trust-model"
      ∷ codes "always"
      ∷ codes "--encrypt"
      ∷ codes "--recipient"
      ∷ recipient
      ∷ codes "--output"
      ∷ out
      ∷ path
      ∷ []

  -- The path of the encrypted file; `plain` is the mode `none`.
  unfoldable pub encrypt : Text → Text → EncryptionMode → Text → W → Result Text × W
  unfolding run_checked
  encrypt path out plain recipient w = (ok path, w)
  encrypt path out age recipient w =
      let encrypted = run_checked (encrypt_argv age recipient out path) out w in
      if is_empty recipient then (raised encryption_error, w) else encrypted
  encrypt path out gpg recipient w =
      let encrypted = run_checked (encrypt_argv gpg recipient out path) out w in
      if is_empty recipient then (raised encryption_error, w) else encrypted

  abbrev identity_args : Text → List Text
  identity_args [] = []
  identity_args (c ∷ path) = codes "--identity" ∷ (c ∷ path) ∷ []

  abbrev pub decrypt_argv : EncryptionMode → Text → Text → Text → List Text
  decrypt_argv plain identity out path = []
  decrypt_argv age identity out path =
      codes "age"
      ∷ codes "--decrypt"
      ∷ (identity_args identity ++ (codes "--output" ∷ out ∷ path ∷ []))
  decrypt_argv gpg identity out path =
      codes "gpg"
      ∷ codes "--batch"
      ∷ codes "--yes"
      ∷ codes "--decrypt"
      ∷ codes "--output"
      ∷ out
      ∷ path
      ∷ []

  unfoldable pub decrypt : Text → Text → EncryptionMode → Text → W → Result Text × W
  unfolding run_checked
  decrypt path out plain identity w = (ok path, w)
  decrypt path out age identity w = run_checked (decrypt_argv age identity out path) out w
  decrypt path out gpg identity w = run_checked (decrypt_argv gpg identity out path) out w
