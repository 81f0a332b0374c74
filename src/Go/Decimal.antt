-- ===== src/Go/Decimal.antt =====
-- `strconv.FormatInt` and `FormatUint` in base ten.
use onedb.Prelude.{ℕ, zero, suc, ◌+◌, ◌/◌, ◌%◌, Bytes, [], ◌∷◌, ◌≡◌, refl, true, false, ltb, codes}
use onedb.Go.Ints.{ℤ, pos, negsuc}

unfoldable pub digits : ℕ → ℕ → Bytes → Bytes
digits zero n out = out
digits (suc f) n out = elim (ltb n 10) [
  | true ↦ (b'0' + n) ∷ out
  | false ↦ digits f (n / 10) ((b'0' + n % 10) ∷ out)
]

-- A number has fewer digits than its successor counts.
unfoldable pub format_uint : ℕ → Bytes
unfolding digits
format_uint n = digits (suc n) n []

unfoldable pub format_int : ℤ → Bytes
unfolding format_uint
format_int (pos n) = format_uint n
format_int (negsuc n) = b'-' ∷ format_uint (suc n)

format_int_runs : format_int (negsuc 9223372036854775807) ≡ codes "-9223372036854775808"
unfolding format_int
format_int_runs = refl
