-- ===== src/Prelude/Outcome.antt =====
-- `absl::Status` and `absl::StatusOr`: an error code with its message, or a value.
use shine.Prelude.Text.{Bytes}

-- The codes that the program uses, each with its message.
pub data Status : Type 0 where
  invalid_argument resource_exhausted unavailable failed_precondition not_found unauthenticated :
      Bytes → Status

pub data Result {ℓ} (A : Type ℓ) : Type ℓ where
  err : Status → Result A
  ok : A → Result A

module _ {κ} {B : Type κ} where
  -- `if (!s.ok()) return s.status();`, and on with the value.
  infixl 5 ◌>>=◌
  abbrev pub ◌>>=◌ {ℓ} : {A : Type ℓ} → Result A → (A → Result B) → Result B
  err status >>= rest = err status
  ok value >>= rest = rest value

  -- The same where there is no value.
  infixl 5 ◌>>◌
  abbrev pub ◌>>◌ : Result (Unit {0}) → Result B → Result B
  err status >> rest = err status
  ok _ >> rest = rest
