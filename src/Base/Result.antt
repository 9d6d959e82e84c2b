-- ===== src/Base/Result.antt =====
-- What a Python call may do besides returning: the exceptions that the model tells apart.
use Prim.Native.Nat.{ℕ}
use mathlib.Core.Path.{◌≡◌, refl}

-- `raised_by n` stands for every exception of code that is not part of the program.
pub data Exn : Type 0 where
  overflow_error value_error key_error type_error os_error runtime_error : Exn
  encryption_error source_not_found not_configured source_error restore_refused time_out
        config_error :
      Exn
  raised_by : ℕ → Exn

pub data Result {ℓ} (A : Type ℓ) : Type ℓ where
  ok : A → Result A
  raised : Exn → Result A

infixl 12 ◌>>=◌ ◌>>◌
-- What follows a call runs only when the call returns.
abbrev pub ◌>>=◌ {ℓ κ} : {B : Type ℓ} {A : Type κ} → Result A → (A → Result B) → Result B
raised failure >>= next = raised failure
ok value >>= next = next value

abbrev pub ◌>>◌ {ℓ} : {B : Type ℓ} → Result (Unit {0}) → Result B → Result B
call >> after = call >>= λ _. after

-- A sequence of two calls returns only if both do.
pub both_return {ℓ κ} :
    {B : Type ℓ} {A : Type κ} (call : Result A) {next : A → Result B} {last : B}
    → (call >>= next) ≡ ok last
    → (value : A) × (next value ≡ ok last) × (call ≡ ok value)
both_return (raised failure) e = cc
both_return (ok value) e = (value, e, refl)

pub ok-injective {ℓ} : {A : Type ℓ} (a b : A) → ok a ≡ ok b → a ≡ b
ok-injective a b h = cc
