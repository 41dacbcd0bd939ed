-- ===== src/Ticketmaster/Images.antt =====
-- The choice of the image of a concert: `pickImageUrl` and `widest` of ticketmaster.service.ts.
use mathlib.Core.Logic.Or
use mathlib.Core.List.{mem-cons, mem-cons_self, mem-cons_of_mem, not-mem-nil, Mem-prop}
use native.Mathlib.Bridge.{le_prop}
use gig_drive.Shared.{
  ℕ, ◌≤◌, Bool, true, false, ◌≡◌, refl, sym, ◌∙◌, ap, ◌⊎◌, inl, inr, Option, none, some, List, [],
  ◌∷◌, Mem, arith, get_or, filter, mem-filter, mem-filter_true, filter-passes, Bool-cases, subst,
  if◌then◌else◌,
}
use gig_drive.Entities.{Text}
use gig_drive.Service.{codes}
use gig_drive.Ticketmaster.{
  TmImage, Picture, with_urls, width_of, wider, widest, has_ratio, pick_image_url, widest_url,
  by_ratio,
}

wider-either : (x y : Picture) → (wider x y ≡ x) ⊎ (wider x y ≡ y)
wider-either x y = ground arith

wider-ge :
    (x y : Picture) → (width_of x ≤ width_of (wider x y)) × (width_of y ≤ width_of (wider x y))
wider-ge x y = ground arith

widest-Mem : (x : Picture) (xs : List Picture) → Mem (widest x xs) (x ∷ xs)
widest-Mem x [] = mem-cons_self
widest-Mem x (y ∷ ys) =
    Or.elim Mem-prop (mem-cons.0 (widest-Mem (wider x y) ys))
      (λ d. elim (wider-either x y) [
        | inl e ↦ mem-cons.1 (Or.inl (d ∙ e))
        | inr e ↦ mem-cons_of_mem x (mem-cons.1 (Or.inl (d ∙ e)))
      ])
      (λ m. mem-cons_of_mem x (mem-cons_of_mem y m))

widest-start : (x : Picture) (xs : List Picture) → width_of x ≤ width_of (widest x xs)
widest-start x [] = omega arith
widest-start x (y ∷ ys) = omega (arith, wider-ge x y, widest-start (wider x y) ys)

-- No image is wider than the one that the reduction returns.
widest-ge :
    (x : Picture) (xs : List Picture) (q : Picture)
    → Mem q (x ∷ xs)
    → width_of q ≤ width_of (widest x xs)
widest-ge x [] q m =
    Or.elim le_prop (mem-cons.0 m) (λ d. rw d (omega arith)) (λ n. absurd (not-mem-nil n))
widest-ge x (y ∷ ys) q m =
    Or.elim le_prop (mem-cons.0 m) (λ d. omega (arith, ap width_of d, widest-start x (y ∷ ys)))
      (λ n.
        Or.elim le_prop (mem-cons.0 n)
          (λ d. omega (arith, ap width_of d, wider-ge x y, widest-start (wider x y) ys))
          (λ o. widest-ge (wider x y) ys q (mem-cons_of_mem (wider x y) o)))

-- The preference among the shapes of images.
abbrev pub rank : Picture → ℕ
rank p = if has_ratio (codes "16_9") p then 2 else if has_ratio (codes "4_3") p then 1 else 0

-- An image of the best shape that there is, and of the greatest width among those.
abbrev pub IsBest : Picture → List Picture → Type 0
IsBest p candidates =
    Mem p candidates
    × ((q : Picture)
        → Mem q candidates
        → (rank q ≤ rank p) × (rank q ≡ rank p → width_of q ≤ width_of p))

-- What `widest` makes of the images that have some shape, if there are any.
matches :
    (P : Picture → Bool) (candidates : List Picture)
    → ((widest_url (filter P candidates) ≡ none) × ((q : Picture) → Mem q candidates → P q ≡ false))
      ⊎ ((p : Picture) × (widest_url (filter P candidates) ≡ some p.url)
          × Mem p candidates
          × (P p ≡ true)
          × ((q : Picture) → Mem q candidates → P q ≡ true → width_of q ≤ width_of p))
matches P candidates = from (filter P candidates) refl
  where
    from :
        (kept : List Picture)
        → filter P candidates ≡ kept
        → ((widest_url (filter P candidates) ≡ none)
            × ((q : Picture) → Mem q candidates → P q ≡ false))
          ⊎ ((p : Picture) × (widest_url (filter P candidates) ≡ some p.url)
              × Mem p candidates
              × (P p ≡ true)
              × ((q : Picture) → Mem q candidates → P q ≡ true → width_of q ≤ width_of p))
    from [] e = inl (
      rw e refl,
      λ q m. elim (Bool-cases (P q)) [
        | inl h ↦ absurd (not-mem-nil (rw e at (mem-filter_true P q candidates m h)))
        | inr h ↦ h
      ],
    )
    from (x ∷ xs) e =
        let there = subst (λ kept. Mem (widest x xs) kept) (sym e) (widest-Mem x xs) in
        inr (
          widest x xs,
          rw e refl,
          mem-filter P (widest x xs) candidates there,
          filter-passes P (widest x xs) candidates there,
          λ q m h. widest-ge x xs q (rw e at (mem-filter_true P q candidates m h)),
        )

by_ratio-hit :
    (ratio url : Text) (ratios : List Text) (candidates : List Picture)
    → widest_url (filter (has_ratio ratio) candidates) ≡ some url
    → by_ratio (ratio ∷ ratios) candidates ≡ some url
by_ratio-hit ratio url ratios candidates e = rw (by_ratio, e) refl

by_ratio-miss :
    (ratio : Text) (ratios : List Text) (candidates : List Picture)
    → widest_url (filter (has_ratio ratio) candidates) ≡ none
    → by_ratio (ratio ∷ ratios) candidates ≡ by_ratio ratios candidates
by_ratio-miss ratio ratios candidates e = rw (by_ratio, e) refl

-- Without images of a preferred shape the widest of all is best.
any_shape :
    (candidates : List Picture)
    → ((q : Picture) → Mem q candidates → rank q ≡ 0)
    → ((widest_url candidates ≡ none) × (candidates ≡ []))
      ⊎ ((p : Picture) × (widest_url candidates ≡ some p.url) × IsBest p candidates)
any_shape [] h = inl (refl, refl)
any_shape (x ∷ xs) h =
    inr
      (widest x xs, refl, (widest-Mem x xs, λ q m. (omega (arith, h q m), λ _. widest-ge x xs q m)))

abbrev wide_ratio : Text
wide_ratio = codes "16_9"

abbrev tall_ratio : Text
tall_ratio = codes "4_3"

-- The image of a concert is missing exactly where no image has a url, and otherwise it is the url of an image
-- that is the widest 16:9 image if there is one, else the widest 4:3 image if there is one, else the widest
-- image.
pub pick_image_url-IsBest :
    (images : Option (List TmImage))
    → let candidates = with_urls (get_or images []) in
      ((pick_image_url images ≡ none) × (candidates ≡ []))
      ⊎ ((p : Picture) × (pick_image_url images ≡ some p.url) × IsBest p candidates)
unfolding pick_image_url
pick_image_url-IsBest images =
    let candidates = with_urls (get_or images []) in
    elim (matches (has_ratio wide_ratio) candidates) [
      | inr (p, e, m, wide, best) ↦ inr (
        p,
        by_ratio-hit wide_ratio p.url (tall_ratio ∷ []) candidates e,
        (m, λ q n. let other = best q n in (ground arith, λ same. ground arith)),
      )
      | inl (e, none_wide) ↦
          let first = by_ratio-miss wide_ratio (tall_ratio ∷ []) candidates e in
          elim (matches (has_ratio tall_ratio) candidates) [
            | inr (p, d, m, tall, best) ↦ inr (
              p,
              first ∙ by_ratio-hit tall_ratio p.url [] candidates d,
              (
                m,
                λ q n.
                    let other = best q n in
                    let shape = none_wide q n in
                    let own = none_wide p m in (ground arith, λ same. ground arith),
              ),
            )
            | inl (d, none_tall) ↦
                let both = first ∙ by_ratio-miss tall_ratio [] candidates d in
                elim (any_shape candidates (λ q n.
                  let shape = none_wide q n in let height = none_tall q n in ground arith)) [
                    | inl (e, empty) ↦ inl (both ∙ e, empty)
                    | inr (p, e, best) ↦ inr (p, both ∙ e, best)
                  ]
          ]
    ]
