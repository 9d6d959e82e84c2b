-- ===== src/Tools.antt =====
-- What the sources of databases call outside: processes, files, temporary ones too, and the decoding
-- of bytes. A call may raise, and leaves a world then too.
use cs_backup_helper.Base.{ℕ, Option, List, ◌≡◌, refl, ap, arith}
use cs_backup_helper.Base.Text.{Text}
use cs_backup_helper.Base.Dict.{Dict}
use cs_backup_helper.Base.Result.{Result, ok, raised, ok-injective}

-- `CompletedProcess`; a code other than 0 stands for a negative one too.
pub record Completed : Type 0 where
  pub returncode : ℕ
  pub stdout : Text
  pub stderr : Text

pub record Tools : Type 1 where
  pub World : Type 0
  -- `run(argv, env=env, stdin=file)`, the output captured; a process that takes too long raises.
  pub run : List Text → Dict Text → Option Text → World → Result Completed × World
  -- `decode("utf-8", errors)` for "replace" and "surrogateescape".
  pub decode : Text → Text
  pub decode_escaped : Text → Text
  -- A new temporary directory in a directory, or file; its removal.
  pub temporary_directory : Text → World → Result Text × World
  pub temporary_file : World → Result Text × World
  pub remove_directory : Text → World → World
  pub unlink : Text → World → Result (Unit {0}) × World
  pub read : Text → World → Result Text × World
  -- `gzip.open(path).read()`, and `gzip.open(path, "wb").write(content)`.
  pub read_gzip : Text → World → Result Text × World
  pub write : Text → Text → World → Result (Unit {0}) × World
  pub write_gzip : Text → Text → World → Result (Unit {0}) × World
  -- `encode("utf-8", "surrogateescape")`
  pub encode_escaped : Text → Text

abbrev pub Call : Tools → Type 0 → Type 0
Call T A = Tools.World T → Result A × Tools.World T

module _ {W : Type 0} where
  abbrev pub next_of : {A B : Type 0} → Result A × W → (A → W → Result B × W) → Result B × W
  next_of (ok a, w) next = next a w
  next_of (raised e, w) next = (raised e, w)

  infixl 12 ◌>>=◌ ◌>>◌
  abbrev pub ◌>>=◌ : {A B : Type 0} → (W → Result A × W) → (A → W → Result B × W) → W → Result B × W
  ◌>>=◌ call next w = next_of (call w) next

  abbrev pub ◌>>◌ :
      {B : Type 0} → (W → Result (Unit {0}) × W) → (W → Result B × W) → W → Result B × W
  call >> next = call >>= λ _. next

  abbrev pub returning : {A : Type 0} → Result A → W → Result A × W
  returning r w = (r, w)

  -- A sequence returns only if its first call does, and then what follows does.
  pub next_returns :
      {A B : Type 0} (r : Result A × W) (next : A → W → Result B × W) (b : B) (last : W)
      → next_of r next ≡ (ok b, last)
      → (a : A) × (w : W) × (r ≡ (ok a, w)) × (next a w ≡ (ok b, last))
  next_returns (ok a, w) next b last h = (a, w, refl, h)
  next_returns (raised e, w) next b last h = absurd (ground (arith, ap (λ p. p.0) h))

  pub returned :
      {A : Type 0} (a b : A) (w last : W) → returning (ok a) w ≡ (ok b, last) → (a ≡ b) × (w ≡ last)
  returned a b w last h = (ok-injective a b (ap (λ p. p.0) h), ap (λ p. p.1) h)

module _ (T : Tools) {A : Type 0} where
  -- `finally: os.unlink(path)`; the exception of the removal replaces another.
  abbrev pub after_unlink : Result A → Result (Unit {0}) × Tools.World T → Result A × Tools.World T
  after_unlink r (ok _, w) = (r, w)
  after_unlink r (raised e, w) = (raised e, w)

  abbrev pub unlinking : Text → Result A × Tools.World T → Result A × Tools.World T
  unlinking path (r, w) = after_unlink r (Tools.unlink T path w)
