-- ===== src/Templates/Escapes.antt =====
-- The escaping of the values in the HTML of backend/src/notifications/email-templates.ts.
use gig_drive.Shared.{
  ℕ, ◌==◌, ==_iff, Bool, true, false, ◌≡◌, refl, sym, ap, ◌∙◌, inl, inr, Option, none, some, [],
  ◌∷◌, ◌++◌, arith, if◌then◌else◌, Bool-cases, not, ◌&&◌,
}
use gig_drive.Entities.{Text}
use gig_drive.Service.{codes}
use gig_drive.Users.{same_text}
use gig_drive.Templates.{escape_html, ampersand, less, greater, quote}

-- What one character becomes.
abbrev entity_of : ℕ → Text
entity_of c =
    if c == ampersand
    then codes "&amp;"
    else if c == less
    then codes "&lt;"
    else if c == greater
    then codes "&gt;"
    else if c == quote
    then codes "&quot;"
    else c ∷ []

escape_html-cons : (c : ℕ) (cs : Text) → escape_html (c ∷ cs) ≡ entity_of c ++ escape_html cs
unfolding escape_html
escape_html-cons c cs = elim (Bool-cases (c == ampersand)) [
  | inl a ↦ rw a refl
  | inr a ↦ elim (Bool-cases (c == less)) [
    | inl b ↦ rw (a, b) refl
    | inr b ↦ elim (Bool-cases (c == greater)) [
      | inl d ↦ rw (a, b, d) refl
      | inr d ↦ elim (Bool-cases (c == quote)) [
        | inl e ↦ rw (a, b, d, e) refl
        | inr e ↦ rw (a, b, d, e) refl
      ]
    ]
  ]
]

-- A reader of escaped text: it copies characters, and between `&` and `;` it collects the name of an entity.
abbrev decode_entity : Text → Text
decode_entity name =
    if same_text name (codes "amp")
    then ampersand ∷ []
    else if same_text name (codes "lt")
    then less ∷ []
    else if same_text name (codes "gt")
    then greater ∷ []
    else if same_text name (codes "quot")
    then quote ∷ []
    else []

abbrev read : Option Text → Text → Text
read none [] = []
read none (c ∷ cs) = if c == ampersand then read (some []) cs else c ∷ read none cs
read (some name) [] = []
read (some name) (c ∷ cs) =
    if c == 59 then decode_entity name ++ read none cs else read (some (name ++ (c ∷ []))) cs

abbrev pub unescape_html : Text → Text
unescape_html = read none

read-plain :
    (c : ℕ) (rest : Text)
    → (c == ampersand) ≡ false
    → unescape_html ((if c == ampersand then codes "&amp;" else c ∷ []) ++ rest)
      ≡ c ∷ unescape_html rest
read-plain c rest a = ground arith

read-entity : (c : ℕ) (rest : Text) → unescape_html (entity_of c ++ rest) ≡ c ∷ unescape_html rest
read-entity c rest = elim (Bool-cases (c == ampersand)) [
  | inl a ↦ rw a (ap (λ x. x ∷ unescape_html rest) (sym ((==_iff _ _).0 a)))
  | inr a ↦ elim (Bool-cases (c == less)) [
    | inl b ↦ rw (a, b) (ap (λ x. x ∷ unescape_html rest) (sym ((==_iff _ _).0 b)))
    | inr b ↦ elim (Bool-cases (c == greater)) [
      | inl d ↦ rw (a, b, d) (ap (λ x. x ∷ unescape_html rest) (sym ((==_iff _ _).0 d)))
      | inr d ↦ elim (Bool-cases (c == quote)) [
        | inl e ↦ rw (a, b, d, e) (ap (λ x. x ∷ unescape_html rest) (sym ((==_iff _ _).0 e)))
        | inr e ↦ rw (b, d, e) (read-plain c rest a)
      ]
    ]
  ]
]

-- No tag and no attribute can end or begin.
abbrev is_inert : ℕ → Bool
is_inert c = not (c == less) && (not (c == greater) && not (c == quote))

abbrev pub all_inert : Text → Bool
all_inert [] = true
all_inert (c ∷ cs) = is_inert c && all_inert cs

entity_of-inert :
    (c : ℕ) (rest : Text) → all_inert rest ≡ true → all_inert (entity_of c ++ rest) ≡ true
entity_of-inert c rest h = elim (Bool-cases (c == ampersand)) [
  | inl a ↦ rw (a, h) refl
  | inr a ↦ elim (Bool-cases (c == less)) [
    | inl b ↦ rw (a, b, h) refl
    | inr b ↦ elim (Bool-cases (c == greater)) [
      | inl d ↦ rw (a, b, d, h) refl
      | inr d ↦ elim (Bool-cases (c == quote)) [
        | inl e ↦ rw (a, b, d, e, h) refl
        | inr e ↦ ground arith
      ]
    ]
  ]
]

escape_html-read : (value : Text) → unescape_html (escape_html value) ≡ value
unfolding escape_html
escape_html-read [] = refl
escape_html-read (c ∷ cs) =
    ap unescape_html (escape_html-cons c cs)
    ∙ read-entity c (escape_html cs)
    ∙ ap (λ r. c ∷ r) (escape_html-read cs)

escape_html-inert : (value : Text) → all_inert (escape_html value) ≡ true
unfolding escape_html
escape_html-inert [] = refl
escape_html-inert (c ∷ cs) =
    ap all_inert (escape_html-cons c cs) ∙ entity_of-inert c (escape_html cs) (escape_html-inert cs)

-- A value that is escaped holds no `<`, `>` or `"`, so that it can neither open a tag nor end an attribute,
-- and whoever reads its entities gets the value back, whatever characters it holds.
pub unescape-escape_html :
    (value : Text)
    → (unescape_html (escape_html value) ≡ value) × (all_inert (escape_html value) ≡ true)
unescape-escape_html value = (escape_html-read value, escape_html-inert value)
