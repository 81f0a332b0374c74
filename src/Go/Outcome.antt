-- ===== src/Go/Outcome.antt =====
-- Results of Go calls: a value, an `error`, a panic, or a loop that was given too little fuel; and
-- the errors of interfaces.go and of the calls in the root package.
use onedb.Prelude.{ℕ, Bytes, Option, none, some}

-- `foreign` is an error from outside the repository, with its message.
pub data Error : Type 0 where
  rows_invalid_data row_invalid_data query_is_nil : Error
  no_mock_data invalid_current_row not_slice_pointer not_struct_pointer empty_result_set : Error
  no_data_found not_found invalid_ldap_exec_type not_primitive_pointer : Error
  invalid_result_type destination_nil destination_no_pointer not_bool unsupported_scan : Error
  conversion_syntax conversion_range : Bytes → Error
  several_values : Bytes → ℕ → Error
  dest_count : ℕ → ℕ → Error
  type_mismatch : ℕ → Error
  foreign : Bytes → Error

pub data Outcome {ℓ} (A : Type ℓ) : Type ℓ where
  ok : A → Outcome A
  err : Error → Outcome A
  panic : Outcome A
  out_of_fuel : Outcome A

infixl 5 ◌>>=◌
abbrev pub ◌>>=◌ {ℓ κ} : {A : Type ℓ} {B : Type κ} → Outcome A → (A → Outcome B) → Outcome B
ok a >>= f = f a
err e >>= f = err e
panic >>= f = panic
out_of_fuel >>= f = out_of_fuel

-- `if err != nil { return err }` for an error that is looked up in a value.
abbrev pub fail_if {ℓ} : {A : Type ℓ} → Option Error → Outcome A → Outcome A
fail_if none r = r
fail_if (some e) r = err e
