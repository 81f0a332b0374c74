-- ===== src/Csv/Reader.antt =====
-- A reader of CSV after RFC 4180, one byte at a time, with a line feed as the line end. It says what a
-- CSV text means, and is not code of the repository. An empty line is a record of one empty field.
use onedb.Prelude.{
  ℕ, [], ◌∷◌, ◌++◌, append-nil, append_assoc, ◌≡◌, ◌≢◌, ◌⊎◌, refl, sym, ap, ◌∙◌, true, false,
  Bool-cases, inl, inr, Option, none, some, List, Bytes, ◌==◌, if◌then◌else◌, arith, ==_iff,
}
use onedb.Csv.{has_special, field_needs_quotes, double_quotes, csv_field, csv_rest, csv_record}

-- At the start of a field, in a field without quotes, inside quotes, and behind a quote inside quotes.
pub data Mode : Type 0 where
  start plain quoted closing : Mode

pub data Event : Type 0 where
  move : Mode → Bytes → Event
  field_end record_end refused : Event

-- What ends a field.
delimiter : ℕ → Event → Event
delimiter c other = if c == b',' then field_end else if c == 10 then record_end else other

step : Mode → ℕ → Event
unfolding delimiter
step start c = if c == b'"' then move quoted [] else delimiter c (move plain (c ∷ []))
step plain c = delimiter c (if c == b'"' then refused else move plain (c ∷ []))
step quoted c = if c == b'"' then move closing [] else move quoted (c ∷ [])
step closing c = if c == b'"' then move quoted (c ∷ []) else delimiter c refused

-- The end of the text, with the field and the record so far; the last line may have no line end.
ended : Mode → Bytes → List Bytes → Option (List (List Bytes))
ended quoted field record_ = none
ended start [] [] = some []
ended m field record_ = some ((record_ ++ field ∷ []) ∷ [])

abbrev pub in_front : List Bytes → Option (List (List Bytes)) → Option (List (List Bytes))
in_front record_ none = none
in_front record_ (some records) = some (record_ ∷ records)

read : Mode → Bytes → List Bytes → Bytes → Option (List (List Bytes))
read m field record_ [] = ended m field record_
read m field record_ (c ∷ s) = elim (step m c) [
  | move m' out ↦ read m' (field ++ out) record_ s
  | field_end ↦ read start [] (record_ ++ field ∷ []) s
  | record_end ↦ in_front (record_ ++ field ∷ []) (read start [] [] s)
  | refused ↦ none
]

-- The records of a CSV text.
unfoldable pub read_csv : Bytes → Option (List (List Bytes))
unfolding read step ended
read_csv s = read start [] [] s

read-move :
    (m m' : Mode) (c : ℕ) (out field : Bytes) (record_ : List Bytes) (s : Bytes)
    → step m c ≡ move m' out
    → read m field record_ (c ∷ s) ≡ read m' (field ++ out) record_ s
unfolding read
read-move m m' c out field record_ s h = rw (h, read) refl

plain_run :
    (text field : Bytes) (record_ : List Bytes) (s : Bytes)
    → has_special text ≡ false
    → read plain field record_ (text ++ s) ≡ read plain (field ++ text) record_ s
unfolding has_special step
plain_run [] field record_ s h = ap (λ f. read plain f record_ s) (sym (append-nil field))
plain_run (c ∷ text) field record_ s h =
    read-move plain plain c (c ∷ []) field record_ (text ++ s) (ground arith)
    ∙ plain_run text (field ++ c ∷ []) record_ s (ground arith)
    ∙ ap (λ f. read plain f record_ s) (append_assoc field (c ∷ []) text)

quoted_run :
    (text field : Bytes) (record_ : List Bytes) (s : Bytes)
    → read quoted field record_ (double_quotes text ++ s) ≡ read quoted (field ++ text) record_ s
unfolding double_quotes step
quoted_run [] field record_ s = ap (λ f. read quoted f record_ s) (sym (append-nil field))
quoted_run (c ∷ text) field record_ s =
    let rest =
      quoted_run text (field ++ c ∷ []) record_ s
      ∙ ap (λ f. read quoted f record_ s) (append_assoc field (c ∷ []) text) in
    elim (Bool-cases (c == b'"')) [
      | inl quote ↦ rw quote (
          read-move quoted closing b'"' [] field record_ (b'"' ∷ (double_quotes text ++ s)) refl
          ∙ read-move closing quoted b'"' (b'"' ∷ []) (field ++ []) record_
              (double_quotes text ++ s) refl
          ∙ ap (λ f. read quoted (f ++ b'"' ∷ []) record_ (double_quotes text ++ s))
              (append-nil field)
          ∙ ap (λ k. read quoted (field ++ k ∷ []) record_ (double_quotes text ++ s))
              (sym ((==_iff c b'"').0 quote))
          ∙ rest)
      | inr other ↦ rw other (
          read-move quoted quoted c (c ∷ []) field record_ (double_quotes text ++ s) (rw other refl)
          ∙ rest)
    ]

-- What stands behind a field: `ends` for its delimiter, and the reader at the start of the next.
behind : ℕ → Bytes → List Bytes → Bytes → Option (List (List Bytes))
behind c field record_ s =
    if c == b','
    then read start [] (record_ ++ field ∷ []) s
    else in_front (record_ ++ field ∷ []) (read start [] [] s)

-- A comma or a line end.
abbrev IsDelimiter : ℕ → Type 0
IsDelimiter c = (c ≡ b',') ⊎ (c ≡ 10)

read-delimiter :
    (m : Mode) (c : ℕ) (field : Bytes) (record_ : List Bytes) (s : Bytes)
    → m ≢ quoted
    → IsDelimiter c
    → read m field record_ (c ∷ s) ≡ behind c field record_ s
unfolding behind step delimiter read
read-delimiter start c field record_ s n (inl e) = rw e refl
read-delimiter start c field record_ s n (inr e) = rw e refl
read-delimiter plain c field record_ s n (inl e) = rw e refl
read-delimiter plain c field record_ s n (inr e) = rw e refl
read-delimiter closing c field record_ s n (inl e) = rw e refl
read-delimiter closing c field record_ s n (inr e) = rw e refl
read-delimiter quoted c field record_ s n e = absurd (n refl)

csv_field-quotes :
    (text : Bytes)
    → field_needs_quotes text ≡ true
    → csv_field text ≡ b'"' ∷ (double_quotes text ++ b'"' ∷ [])
unfolding csv_field
csv_field-quotes text h = rw h refl

csv_field-bare : (text : Bytes) → field_needs_quotes text ≡ false → csv_field text ≡ text
unfolding csv_field
csv_field-bare text h = rw h refl

needs_no_quotes :
    (k : ℕ) (text : Bytes)
    → field_needs_quotes (k ∷ text) ≡ false
    → (step start k ≡ move plain (k ∷ [])) × (has_special text ≡ false)
unfolding field_needs_quotes has_special step delimiter
needs_no_quotes k text h = ground arith

read-quotes :
    (text : Bytes) (c : ℕ) (record_ : List Bytes) (s : Bytes)
    → IsDelimiter c
    → read start [] record_ (b'"' ∷ (double_quotes text ++ b'"' ∷ c ∷ s)) ≡ behind c text record_ s
unfolding step
read-quotes text c record_ s d =
    let rest = b'"' ∷ c ∷ s in
    read-move start quoted b'"' [] [] record_ (double_quotes text ++ rest) refl
    ∙ quoted_run text [] record_ rest
    ∙ read-move quoted closing b'"' [] text record_ (c ∷ s) refl
    ∙ ap (λ f. read closing f record_ (c ∷ s)) (append-nil text)
    ∙ read-delimiter closing c text record_ s (λ e. cc) d

read-bare :
    (k : ℕ) (text : Bytes) (c : ℕ) (record_ : List Bytes) (s : Bytes)
    → field_needs_quotes (k ∷ text) ≡ false
    → IsDelimiter c
    → read start [] record_ ((k ∷ text) ++ c ∷ s) ≡ behind c (k ∷ text) record_ s
read-bare k text c record_ s h d =
    let (move_, no_special) = needs_no_quotes k text h in
    read-move start plain k (k ∷ []) [] record_ (text ++ c ∷ s) move_
    ∙ plain_run text (k ∷ []) record_ (c ∷ s) no_special
    ∙ read-delimiter plain c (k ∷ text) record_ s (λ e. cc) d

read-unquoted :
    (text : Bytes) (c : ℕ) (record_ : List Bytes) (s : Bytes)
    → field_needs_quotes text ≡ false
    → IsDelimiter c
    → read start [] record_ (text ++ c ∷ s) ≡ behind c text record_ s
read-unquoted [] c record_ s h d = read-delimiter start c [] record_ s (λ e. cc) d
read-unquoted (k ∷ text) c record_ s h d = read-bare k text c record_ s h d

-- A field as it is written, and its delimiter.
read-csv_field :
    (text : Bytes) (c : ℕ) (record_ : List Bytes) (s : Bytes)
    → IsDelimiter c
    → read start [] record_ (csv_field text ++ c ∷ s) ≡ behind c text record_ s
read-csv_field text c record_ s d = elim (Bool-cases (field_needs_quotes text)) [
  | inl quotes ↦
      ap (λ f. read start [] record_ (f ++ c ∷ s)) (csv_field-quotes text quotes)
      ∙ ap (λ (r : Bytes). read start [] record_ (b'"' ∷ r))
          (append_assoc (double_quotes text) (b'"' ∷ []) (c ∷ s))
      ∙ read-quotes text c record_ s d
  | inr bare ↦
      ap (λ f. read start [] record_ (f ++ c ∷ s)) (csv_field-bare text bare)
      ∙ read-unquoted text c record_ s bare d
]

read-csv_rest :
    (fields : List Bytes) (f : Bytes) (record_ : List Bytes) (s : Bytes)
    → read start [] record_ (csv_field f ++ (csv_rest fields ++ s))
      ≡ in_front (record_ ++ f ∷ fields) (read start [] [] s)
unfolding behind csv_rest
read-csv_rest [] f record_ s = read-csv_field f 10 record_ s (inr refl)
read-csv_rest (f' ∷ fields) f record_ s =
    read-csv_field f b',' record_ (csv_field f' ++ csv_rest fields ++ s) (inl refl)
    ∙ ap (λ r. read start [] (record_ ++ f ∷ []) r)
        (append_assoc (csv_field f') (csv_rest fields) s)
    ∙ read-csv_rest fields f' (record_ ++ f ∷ []) s
    ∙ ap (λ r. in_front r (read start [] [] s)) (append_assoc record_ (f ∷ []) (f' ∷ fields))

-- A record as it is written, which has at least one field.
pub read_csv-csv_record :
    (record_ : List Bytes) (s : Bytes)
    → record_ ≢ []
    → read_csv (csv_record record_ ++ s) ≡ in_front record_ (read_csv s)
unfolding csv_record read_csv
read_csv-csv_record [] s n = absurd (n refl)
read_csv-csv_record (f ∷ fields) s n =
    ap (λ r. read start [] [] r) (append_assoc (csv_field f) (csv_rest fields) s)
    ∙ read-csv_rest fields f [] s

pub read_csv-nil : read_csv [] ≡ some []
unfolding read_csv read ended
read_csv-nil = refl
