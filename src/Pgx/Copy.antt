-- ===== src/Pgx/Copy.antt =====
-- `copyFromRows` of pgx/copiedFromPgx.go, the rows that a `CopyFrom` reads.
use onedb.Prelude.{
  ℕ, zero, suc, [], ◌∷◌, ◌++◌, Bool, true, false, ◌≡◌, refl, sym, ap, ◌∙◌, append-nil, append_assoc,
  Option, none, some, List, length, length-append, get_elem?, get_elem?-append_self, ltb, lt→ltb,
  le→ltb, arith,
}
use onedb.Go.Ints.{ℤ, pos, negsuc}
use onedb.Go.Outcome.{Error, Outcome, ok, panic}
use onedb.Go.Values.{Value}

-- `CopyFromSource`, for an implementation with states `S`.
pub record CopyFromSource (S : Type 0) : Type 0 where
  pub next : S → S × Bool
  pub values : S → Outcome (List Value)
  pub last_err : S → Option Error

pub record CopyFromRows : Type 0 where
  pub rows : List (List Value)
  pub idx : ℤ

-- `CopyFromRows`
unfoldable pub copy_from_rows : List (List Value) → CopyFromRows
copy_from_rows rows = record { rows = rows; idx = negsuc 0 }

-- `idx++`
increment : ℤ → ℤ
increment (pos n) = pos (suc n)
increment (negsuc zero) = pos 0
increment (negsuc (suc n)) = negsuc n

-- `idx < len(rows)`
before_end : ℤ → List (List Value) → Bool
before_end (pos n) rows = ltb n (length rows)
before_end (negsuc n) rows = true

-- `rows[idx]`
row_at : ℤ → List (List Value) → Outcome (List Value)
row_at (negsuc n) rows = panic
row_at (pos n) rows = found (get_elem? rows n)
  where
    found : Option (List Value) → Outcome (List Value)
    found none = panic
    found (some row) = ok row

unfoldable pub next : CopyFromRows → CopyFromRows × Bool
unfolding increment before_end
next ctr = let idx = increment ctr.idx in (record ctr { idx = idx }, before_end idx ctr.rows)

unfoldable pub values : CopyFromRows → Outcome (List Value)
unfolding row_at
values ctr = row_at ctr.idx ctr.rows

unfoldable pub copy_source : CopyFromSource CopyFromRows
unfolding next values
copy_source = record { next = next; values = values; last_err = λ ctr. none }

module _ {S : Type 0} (src : CopyFromSource S) where
  -- `Next` and `Values` in turn give the rows, and then `Next` is false and `Err` nil.
  pub data Sends : S → List (List Value) → S → Type 0 where
    sent : {s t : S} → src.next s ≡ (t, false) → src.last_err t ≡ none → Sends s [] t
    sends :
        {s s' t : S} {row : List Value} {rows : List (List Value)}
        → src.next s ≡ (s', true)
        → src.values s' ≡ ok row
        → Sends s' rows t
        → Sends s (row ∷ rows) t

-- The source before the row `n`: `idx` is one less.
before : ℕ → ℤ
before zero = negsuc 0
before (suc n) = pos n

before-increment : (n : ℕ) → increment (before n) ≡ pos n
unfolding increment before
before-increment zero = refl
before-increment (suc n) = refl

-- Behind the rows `read`, the rest is sent.
rest-Sends :
    (rows read rest : List (List Value)) (n : ℕ)
    → rows ≡ read ++ rest
    → n ≡ length read
    → Sends copy_source
        (record { rows = rows; idx = before n })
        rest
        (record { rows = rows; idx = pos (length rows) })
unfolding copy_source next values before_end row_at before
rest-Sends rows read [] n e m =
    let same : n ≡ length rows = m ∙ ap length (sym (e ∙ append-nil read)) in
    sent (rw (before-increment n, same, le→ltb (length rows) (length rows) (omega arith)) refl) refl
rest-Sends rows read (row ∷ rest) n e m =
    sends
      (rw
        (
          before-increment n,
          lt→ltb n (length rows) (omega (arith, ap length e, length-append read (row ∷ rest))),
        )
        refl)
      (rw (e, m, get_elem?-append_self read row rest) refl)
      (rest-Sends rows (read ++ row ∷ []) rest (suc n) (e ∙ sym (append_assoc read (row ∷ []) rest))
        (omega (arith, length-append read (row ∷ []))))

past_end : (rows : List (List Value)) → get_elem? rows (length rows) ≡ none
past_end [] = refl
past_end (row ∷ rows) = past_end rows

-- `Next` and `Values` of a new `copyFromRows` in turn give its rows, in order, then `Next` is
-- false and `Err` nil; `Values` panics before the first `Next` and after the last.
pub copy_from_rows-Sends :
    (rows : List (List Value))
    → (Sends copy_source
        (copy_from_rows rows)
        rows
        (record { rows = rows; idx = pos (length rows) }))
      × (values (copy_from_rows rows) ≡ panic)
      × (values (record { rows = rows; idx = pos (length rows) }) ≡ panic)
unfolding copy_from_rows values row_at before
copy_from_rows-Sends rows = (rest-Sends rows [] rows 0 refl refl, refl, rw (past_end rows) refl)
