-- ===== src/Manifest/RoundTrip.antt =====
-- The file of backend/src/trips/passenger-manifest.ts, under the reader of the format.
use gig_drive.Shared.{
  ℕ, ◌==◌, ==_iff, Bool, true, false, ◌≡◌, refl, ap, ◌∙◌, ◌⊎◌, inl, inr, List, [], ◌∷◌, ◌++◌, arith,
  Bool-cases, map,
}
use mathlib.Core.List.{append_assoc}
use gig_drive.Entities.{Text}
use gig_drive.Manifest.{
  ManifestRow, join_with, is_special, has_special, double_quotes, csv_field, csv_header, row_values,
  build_passenger_manifest_csv,
}
use gig_drive.Manifest.Reader.{
  Place, Records, push, end_field, end_record, step_bare, step_start, step, at_end, read,
}

-- A text in front of the field that the reader stands in.
push_all : Text → Records → Records
push_all [] records = records
push_all (c ∷ cs) records = push c (push_all cs records)

push_all-field :
    (text : Text) (fields : List Text) (records : Records)
    → push_all text (([] ∷ fields) ∷ records) ≡ (text ∷ fields) ∷ records
unfolding push_all push
push_all-field [] fields records = refl
push_all-field (c ∷ cs) fields records = rw (push_all-field cs fields records) refl

-- Between quotes the reader undoes the doubling.
read-double_quotes :
    (text rest : Text)
    → read (double_quotes text ++ (34 ∷ rest)) Place.quoted
      ≡ push_all text (read rest Place.behind_quote)
unfolding read step step_bare double_quotes push_all
read-double_quotes [] rest = refl
read-double_quotes (c ∷ cs) rest = elim (Bool-cases (c == 34)) [
  | inl e ↦
      let quote : c ≡ 34 = (==_iff c 34).0 e in
      rw e (rw quote (ap (push 34) (read-double_quotes cs rest)))
  | inr e ↦ rw (e, e) (ap (push c) (read-double_quotes cs rest))
]

-- Without special characters it takes a text as it is.
read-bare :
    (text rest : Text)
    → has_special text ≡ false
    → read (text ++ rest) Place.bare ≡ push_all text (read rest Place.bare)
unfolding read step step_bare has_special push_all
read-bare [] rest h = refl
read-bare (c ∷ cs) rest h =
    let ih = read-bare cs rest (ground arith) in
    let other : is_special c ≡ false = ground arith in ground (arith, ih)

-- What may stand behind a field.
abbrev IsSeparator : ℕ → Type 0
IsSeparator c = (c ≡ 44) ⊎ (c ≡ 10)

-- Behind the quote that ends a field, and at the start of one, a separator is read as in a bare field.
read-separator :
    (c : ℕ) (rest : Text)
    → IsSeparator c
    → (read (c ∷ rest) Place.behind_quote ≡ read (c ∷ rest) Place.bare)
      × (read (c ∷ rest) Place.field_start ≡ read (c ∷ rest) Place.bare)
unfolding read step step_start
read-separator c rest (inl e) = rw e (refl, refl)
read-separator c rest (inr e) = rw e (refl, refl)

read-start :
    (text rest : Text)
    → has_special text ≡ false
    → (c : ℕ) → IsSeparator c
    → read (text ++ (c ∷ rest)) Place.field_start ≡ push_all text (read (c ∷ rest) Place.bare)
unfolding read step step_start has_special push_all
read-start [] rest h c s = (read-separator c rest s).1
read-start (d ∷ ds) rest h c s =
    let ih : read (ds ++ (c ∷ rest)) Place.bare ≡ push_all ds (read (c ∷ rest) Place.bare) =
      read-bare ds (c ∷ rest) (ground arith) in
    let whole = read-bare (d ∷ ds) (c ∷ rest) h in
    let other : d == 34 ≡ false = ground arith in rw other whole

read-quoted :
    (text : Text) (c : ℕ) (rest : Text)
    → IsSeparator c
    → read (34 ∷ ((double_quotes text ++ (34 ∷ [])) ++ (c ∷ rest))) Place.field_start
      ≡ push_all text (read (c ∷ rest) Place.bare)
unfolding read step step_start
read-quoted text c rest s =
    rw (append_assoc (double_quotes text) (34 ∷ []) (c ∷ rest))
      (read-double_quotes text (c ∷ rest) ∙ ap (push_all text) (read-separator c rest s).0)

-- A quoted field is read as the text that it stands for.
read-csv_field :
    (text : Text) (c : ℕ) (rest : Text)
    → IsSeparator c
    → read (csv_field text ++ (c ∷ rest)) Place.field_start
      ≡ push_all text (read (c ∷ rest) Place.bare)
unfolding csv_field
read-csv_field text c rest s = elim (Bool-cases (has_special text)) [
  | inl e ↦ rw e (read-quoted text c rest s)
  | inr e ↦ rw e (read-start text rest e c s)
]

has_fields : List Text → Bool
has_fields [] = false
has_fields (_ ∷ _) = true

abbrev line : List Text → Text
line fields = join_with 44 (map csv_field fields)

read-comma : (rest : Text) → read (44 ∷ rest) Place.bare ≡ end_field (read rest Place.field_start)
unfolding read step step_bare
read-comma rest = refl

read-line_feed :
    (rest : Text) → read (10 ∷ rest) Place.bare ≡ end_record (read rest Place.record_start)
unfolding read step step_bare
read-line_feed rest = refl

-- A line is read as its fields.
read-line :
    (fields : List Text) (rest : Text)
    → has_fields fields ≡ true
    → read (line fields ++ (10 ∷ rest)) Place.field_start ≡ fields ∷ read rest Place.record_start
unfolding has_fields join_with end_field
read-line [] rest h = cc
read-line (f ∷ []) rest h =
    read-csv_field f 10 rest (inr refl)
    ∙ ap (push_all f) (read-line_feed rest)
    ∙ push_all-field f [] (read rest Place.record_start)
read-line (f ∷ g ∷ fs) rest h =
    let others = line (g ∷ fs) in
    rw (append_assoc (csv_field f) (44 ∷ others) (10 ∷ rest)) (
      read-csv_field f 44 (others ++ (10 ∷ rest)) (inl refl)
      ∙ ap (push_all f)
          (read-comma (others ++ (10 ∷ rest)) ∙ ap end_field (read-line (g ∷ fs) rest refl))
      ∙ push_all-field f (g ∷ fs) (read rest Place.record_start))

-- At the start of a record a text that is not empty is read as at the start of another field.
read-record :
    (text : Text) (c : ℕ) (rest : Text)
    → read (text ++ (c ∷ rest)) Place.record_start ≡ read (text ++ (c ∷ rest)) Place.field_start
unfolding read step step_start
read-record [] c rest = refl
read-record (d ∷ ds) c rest = refl

row_values-fields : (row : ManifestRow) → has_fields (row_values row) ≡ true
unfolding has_fields row_values
row_values-fields row = refl

read-nothing : read [] Place.record_start ≡ []
unfolding read at_end
read-nothing = refl

read-lines :
    (fields : List Text) (rows : List ManifestRow)
    → has_fields fields ≡ true
    → read
        (join_with 10 (line fields ∷ map (λ row. line (row_values row)) rows) ++ (10 ∷ []))
        Place.record_start
      ≡ fields ∷ map row_values rows
unfolding join_with
read-lines fields [] h =
    read-record (line fields) 10 [] ∙ read-line fields [] h ∙ ap (λ r. fields ∷ r) read-nothing
read-lines fields (row ∷ rows) h =
    let others = join_with 10 (line (row_values row) ∷ map (λ row. line (row_values row)) rows) in
    rw (append_assoc (line fields) (10 ∷ others) (10 ∷ [])) (
      read-record (line fields) 10 (others ++ (10 ∷ []))
      ∙ read-line fields (others ++ (10 ∷ [])) h
      ∙ ap (λ r. fields ∷ r) (read-lines (row_values row) rows (row_values-fields row)))

-- A reader of RFC 4180 files reads the file of a trip as the header and the values of each row, whatever
-- characters the values have.
pub read-build_passenger_manifest_csv :
    (rows : List ManifestRow)
    → read (build_passenger_manifest_csv rows) Place.record_start ≡ csv_header ∷ map row_values rows
unfolding build_passenger_manifest_csv has_fields
read-build_passenger_manifest_csv rows = read-lines csv_header rows refl
