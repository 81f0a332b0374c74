-- ===== src/Json/Result/Fields.antt =====
-- One row: the loop of `scanJSON` against the object that it should write.
use onedb.Prelude.{
  [], ◌∷◌, ◌++◌, append-nil, append_assoc, ◌≡◌, refl, sym, ap, ◌∙◌, Bool, true, false, List, map,
  length, Bytes, codes, text_eq, arith, if◌then◌else◌, Bool-cases, inl, inr,
}
use onedb.Go.Outcome.{ok}
use onedb.Go.Values.{Value, Runtime}
use onedb.Json.Scalar.{json_text, get_json_value-text}
use onedb.Json.Result.{write_fields}
use onedb.Rows.Script.{holding}

-- Texts with a comma in front of each.
abbrev pub commas : List Bytes → Bytes
commas [] = []
commas (x ∷ xs) = b',' ∷ (x ++ commas xs)

-- Texts with a comma between each two.
abbrev pub comma_join : List Bytes → Bytes
comma_join [] = []
comma_join (x ∷ xs) = x ++ commas xs

-- The members of the object for a row: a column whose value is `null` has none.
unfoldable pub members : Runtime → List Bytes → List Value → List Bytes
members rt (column ∷ columns) (v ∷ row) =
    if text_eq (json_text rt v) (codes "null")
    then members rt columns row
    else (column ++ json_text rt v) ∷ members rt columns row
members rt _ _ = []

abbrev pub joined : Bool → List Bytes → Bytes
joined first xs = if first then comma_join xs else commas xs

module _ (rt : Runtime) where
  write_fields_step :
      (column : Bytes) (columns : List Bytes) (v : Value) (row : List Value) (first : Bool)
      (b : Bytes)
      → write_fields rt (column ∷ columns) (map holding (v ∷ row)) first b ≡ (
          if text_eq (json_text rt v) (codes "null")
          then write_fields rt columns (map holding row) first b
          else write_fields rt columns
              (map holding row)
              false
              (b ++ ((if first then [] else b',' ∷ []) ++ (column ++ json_text rt v))))
  unfolding write_fields
  write_fields_step column columns v row first b =
      elim (Bool-cases (text_eq (json_text rt v) (codes "null"))) [
        | inl e ↦ rw (get_json_value-text rt v) (rw e refl)
        | inr e ↦ rw (get_json_value-text rt v) (rw e refl)
      ]

  joined_cons :
      (first : Bool) (b x : Bytes) (xs : List Bytes)
      → (b ++ ((if first then [] else b',' ∷ []) ++ x)) ++ commas xs ≡ b ++ joined first (x ∷ xs)
  joined_cons true b x xs = append_assoc b x (commas xs)
  joined_cons false b x xs = append_assoc b (b',' ∷ x) (commas xs)

  members_step :
      (column : Bytes) (columns : List Bytes) (v : Value) (row : List Value)
      → members rt (column ∷ columns) (v ∷ row) ≡ (
          if text_eq (json_text rt v) (codes "null")
          then members rt columns row
          else (column ++ json_text rt v) ∷ members rt columns row)
  unfolding members
  members_step column columns v row = refl

  -- The loop of `scanJSON` over a row with a value for every column writes the members of the
  -- columns whose values are not `null`, in order, with a comma between each two, behind the
  -- buffer.
  pub write_fields-members :
      (columns : List Bytes) (row : List Value) (first : Bool) (b : Bytes)
      → length columns ≡ length row
      → write_fields rt columns (map holding row) first b
        ≡ ok (b ++ joined first (members rt columns row))
  write_fields-members [] [] true b h = unfold write_fields members in ap ok (sym (append-nil b))
  write_fields-members [] [] false b h = unfold write_fields members in ap ok (sym (append-nil b))
  write_fields-members [] (v ∷ row) first b h = absurd (omega arith)
  write_fields-members (column ∷ columns) [] first b h = absurd (omega arith)
  write_fields-members (column ∷ columns) (v ∷ row) first b h =
      let written = b ++ ((if first then [] else b',' ∷ []) ++ (column ++ json_text rt v)) in
      let shorter : length columns ≡ length row = omega arith in
      rw (write_fields_step column columns v row first b, members_step column columns v row)
        (elim (Bool-cases (text_eq (json_text rt v) (codes "null"))) [
          | inl null ↦ rw null (write_fields-members columns row first b shorter)
          | inr shown ↦ rw shown (
              write_fields-members columns row false written shorter
              ∙ ap ok (joined_cons first b (column ++ json_text rt v) (members rt columns row)))
        ])
