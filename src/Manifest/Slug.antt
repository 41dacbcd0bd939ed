-- ===== src/Manifest/Slug.antt =====
-- The file name of backend/src/trips/passenger-manifest.ts: the characters in it.
use gig_drive.Shared.{
  ℕ, ◌==◌, Bool, true, false, not, ◌&&◌, ◌||◌, ◌≡◌, refl, inl, inr, [], ◌∷◌, ◌++◌, All, arith,
  Bool-cases, filter,
}
use gig_drive.Entities.{Text}
use gig_drive.Service.{Env, codes}
use gig_drive.TripQueries.{is_empty}
use gig_drive.Manifest.{
  slug, manifest_filename, dash_runs, drop_leading, drop_trailing, is_lower_alnum, between,
}

-- Small letters, digits, dashes and full stops.
abbrev pub is_safe : ℕ → Bool
is_safe c = is_lower_alnum c || (c == 45 || c == 46)

abbrev pub IsSafe : Text → Type 0
IsSafe = All (λ c. is_safe c ≡ true)

dash_runs-IsSafe : (in_run : Bool) (text : Text) → IsSafe (dash_runs in_run text)
unfolding dash_runs
dash_runs-IsSafe in_run [] = tt
dash_runs-IsSafe in_run (c ∷ cs) = elim (Bool-cases (is_lower_alnum c)) [
  | inl e ↦ rw e (ground arith, dash_runs-IsSafe false cs)
  | inr e ↦ elim in_run as (λ b. IsSafe (dash_runs b (c ∷ cs))) [
    | true ↦ rw e (dash_runs-IsSafe true cs)
    | false ↦ rw e (refl, dash_runs-IsSafe true cs)
  ]
]

drop_leading-IsSafe : (p : ℕ → Bool) (text : Text) → IsSafe text → IsSafe (drop_leading p text)
unfolding drop_leading
drop_leading-IsSafe p [] h = tt
drop_leading-IsSafe p (c ∷ cs) h = elim (Bool-cases (p c)) [
  | inl e ↦ rw e (drop_leading-IsSafe p cs h.1)
  | inr e ↦ rw e h
]

drop_trailing-IsSafe : (p : ℕ → Bool) (text : Text) → IsSafe text → IsSafe (drop_trailing p text)
unfolding drop_trailing
drop_trailing-IsSafe p [] h = tt
drop_trailing-IsSafe p (c ∷ cs) h = elim (Bool-cases (p c && is_empty (drop_trailing p cs))) [
  | inl e ↦ rw e tt
  | inr e ↦ rw e (h.0, drop_trailing-IsSafe p cs h.1)
]

append-IsSafe : (a b : Text) → IsSafe a → IsSafe b → IsSafe (a ++ b)
append-IsSafe [] b h k = k
append-IsSafe (c ∷ cs) b h k = (h.0, append-IsSafe cs b h.1 k)

module _ (env : Env) where
  slug-IsSafe : (value : Text) → IsSafe (slug env value)
  unfolding slug
  slug-IsSafe value =
      let plain = filter (λ c. not (between 768 879 c)) (env.normalize_nfkd value) in
      let dashed = dash_runs false (env.to_lower_case plain) in
      let slugged = drop_trailing (λ c. c == 45) (drop_leading (λ c. c == 45) dashed) in
      elim (Bool-cases (is_empty slugged)) [
        | inl e ↦ rw e (refl, (refl, (refl, (refl, (refl, (refl, (refl, tt)))))))
        | inr e ↦ rw e (
            drop_trailing-IsSafe (λ c. c == 45) (drop_leading (λ c. c == 45) dashed)
              (drop_leading-IsSafe (λ c. c == 45) dashed
                (dash_runs-IsSafe false (env.to_lower_case plain))))
      ]

  -- Whatever the artist and the city are called, and however Unicode normalises and lowers their
  -- letters, the file name has small letters, digits, dashes and full stops only, if the day has.
  pub manifest_filename-IsSafe :
      (artist city : Text) (start_at : ℕ)
      → IsSafe (env.iso_day start_at)
      → IsSafe (manifest_filename env artist city start_at)
  unfolding manifest_filename
  manifest_filename-IsSafe artist city start_at day =
      append-IsSafe (codes "manifest-") _
        (refl, (refl, (refl, (refl, (refl, (refl, (refl, (refl, (refl, tt)))))))))
        (append-IsSafe (slug env artist) _ (slug-IsSafe artist) (
          refl,
          append-IsSafe (slug env city) _ (slug-IsSafe city) (
            refl,
            append-IsSafe (env.iso_day start_at) (codes ".csv") day
                (refl, (refl, (refl, (refl, tt)))),
          ),
        ))
