-- ===== src/Manifest/Reader.antt =====
-- A reader of RFC 4180 files with line feeds, for the files that backend/src/trips/passenger-manifest.ts
-- writes: an independent description of the format.
use gig_drive.Shared.{ℕ, ◌==◌, List, [], ◌∷◌, if◌then◌else◌}
use gig_drive.Entities.{Text}

-- Where the reader stands: at the start of a record, at the start of another field, in a field
-- without quotes, between quotes, or behind a quote that ends the field or is one of two.
pub data Place : Type 0 where
  record_start field_start bare quoted behind_quote : Place

-- The records that are still to come. The first is the rest of the record that the reader stands in,
-- and its first field the rest of the field.
abbrev pub Records : Type 0
Records = List (List Text)

unfoldable pub push : ℕ → Records → Records
push c [] = ((c ∷ []) ∷ []) ∷ []
push c ([] ∷ records) = ((c ∷ []) ∷ []) ∷ records
push c ((field ∷ fields) ∷ records) = ((c ∷ field) ∷ fields) ∷ records

unfoldable pub end_field : Records → Records
end_field [] = ([] ∷ []) ∷ []
end_field (fields ∷ records) = ([] ∷ fields) ∷ records

abbrev pub end_record : Records → Records
end_record records = ([] ∷ []) ∷ records

unfoldable pub step_bare : ℕ → (Place → Records) → Records
unfolding push end_field
step_bare c next =
    if c == 44
    then end_field (next Place.field_start)
    else if c == 10
    then end_record (next Place.record_start)
    else push c (next Place.bare)

unfoldable pub step_start : ℕ → (Place → Records) → Records
unfolding step_bare
step_start c next = if c == 34 then next Place.quoted else step_bare c next

unfoldable pub step : ℕ → Place → (Place → Records) → Records
unfolding step_start
step c Place.record_start next = step_start c next
step c Place.field_start next = step_start c next
step c Place.bare next = step_bare c next
step c Place.quoted next = if c == 34 then next Place.behind_quote else push c (next Place.quoted)
step c Place.behind_quote next = if c == 34 then push 34 (next Place.quoted) else step_bare c next

unfoldable pub at_end : Place → Records
at_end Place.record_start = []
at_end _ = end_record []

unfoldable pub read : Text → Place → Records
unfolding step at_end
read [] place = at_end place
read (c ∷ cs) place = step c place (read cs)
