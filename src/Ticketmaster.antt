-- ===== src/Ticketmaster.antt =====
-- backend/src/integrations/ticketmaster/ticketmaster.service.ts: the events of the provider as concerts. The
-- request, its URL and the JSON of the response are parameters. A field that the JSON leaves out is `none`.
pub mod Images
use gig_drive.Shared.{
  ℕ, ltb, not, ◌&&◌, Bool, true, false, Option, none, some, List, [], ◌∷◌, ◌++◌, get_or, filter,
  head?, foldl, if◌then◌else◌,
}
use gig_drive.Entities.{Text}
use gig_drive.Service.{codes}
use gig_drive.TripViews.{field}
use gig_drive.TripQueries.{is_empty}
use gig_drive.Users.{same_text}

pub record ProviderConcert : Type 0 where
  pub external_id : Text
  pub artist : Text
  pub title : Text
  pub venue : Text
  pub city : Text
  pub country : Text
  pub lat : Option ℕ
  pub lng : Option ℕ
  pub start_at : ℕ
  pub image_url : Option Text
  pub genre : Option Text
  pub ticket_url : Option Text

pub record TmImage : Type 0 where
  pub url : Option Text
  pub ratio : Option Text
  pub width : Option ℕ

pub record TmStart : Type 0 where
  pub date_time : Option Text
  pub local_date : Option Text
  pub local_time : Option Text

pub record TmVenue : Type 0 where
  pub name : Option Text
  -- `city?.name` and `country?.name`
  pub city : Option Text
  pub country : Option Text
  -- `location?.latitude` and `location?.longitude`
  pub latitude : Option Text
  pub longitude : Option Text

pub record TmEvent : Type 0 where
  pub id : Option Text
  pub name : Option Text
  pub url : Option Text
  pub start : Option TmStart
  pub images : Option (List TmImage)
  -- `genre?.name` of each classification, and the name of each attraction
  pub genres : Option (List (Option Text))
  pub attractions : Option (List (Option Text))
  pub venues : Option (List TmVenue)

-- The filters of a search.
pub record SearchConcertsDto : Type 0 where
  pub q : Option Text
  pub city : Option Text
  pub date_from : Option Text
  pub date_to : Option Text
  pub genre : Option Text
  pub page : ℕ

pub record Provider : Type 0 where
  -- Whether an API key is configured.
  pub is_configured : Bool
  -- `fetch`, with `none` for a network error, a timeout, a status that is not 2xx and a body that is no
  -- JSON; `payload._embedded?.events` of the body otherwise.
  pub fetch_events : SearchConcertsDto → Option (Option (List TmEvent))
  -- `Number(text)`, and the time of `new Date(text)` where it is one
  pub to_number : Text → ℕ
  pub parse_date : Text → Option ℕ

-- `a && b` for a text that may be missing or empty.
abbrev pub filled : Option Text → Option Text
filled none = none
filled (some text) = if is_empty text then none else some text

abbrev pub bind : {A B : Type 0} → Option A → (A → Option B) → Option B
bind none f = none
bind (some a) f = f a

-- `list?.[0]`
abbrev pub first_of : {A : Type 0} → Option (List A) → Option A
first_of none = none
first_of (some xs) = head? xs

-- An image with a url.
pub record Picture : Type 0 where
  pub url : Text
  pub ratio : Option Text
  pub width : Option ℕ

-- `images.filter((image) => Boolean(image.url))`
abbrev pub with_urls : List TmImage → List Picture
with_urls [] = []
with_urls (image ∷ images) = elim (filled image.url) [
  | none ↦ with_urls images
  | some url ↦ record { url = url; ratio = image.ratio; width = image.width } ∷ with_urls images
]

abbrev pub width_of : Picture → ℕ
width_of picture = get_or picture.width 0

abbrev pub wider : Picture → Picture → Picture
wider best image = if ltb (width_of best) (width_of image) then image else best

-- `images.reduce(…)` on images that start with `image`.
abbrev pub widest : Picture → List Picture → Picture
widest image images = foldl wider image images

abbrev pub has_ratio : Text → Picture → Bool
has_ratio ratio picture = field picture.ratio (λ r. same_text r ratio) false

abbrev pub widest_url : List Picture → Option Text
widest_url [] = none
widest_url (image ∷ images) = some (widest image images).url

-- The loop over the preferred ratios.
abbrev pub by_ratio : List Text → List Picture → Option Text
by_ratio [] candidates = widest_url candidates
by_ratio (ratio ∷ ratios) candidates = elim (widest_url (filter (has_ratio ratio) candidates)) [
  | none ↦ by_ratio ratios candidates
  | some url ↦ some url
]

unfoldable pub pick_image_url : Option (List TmImage) → Option Text
pick_image_url images = by_ratio (codes "16_9" ∷ codes "4_3" ∷ []) (with_urls (get_or images []))

module _ (provider : Provider) where
  abbrev raw_start : TmStart → Option Text
  raw_start start = elim start.date_time [
    | some text ↦ some text
    | none ↦ elim (filled start.local_date) [
      | none ↦ none
      | some date ↦
          some (date ++ codes "T" ++ get_or start.local_time (codes "00:00:00") ++ codes "Z")
    ]
  ]

  unfoldable pub parse_start : TmEvent → Option ℕ
  parse_start event =
      bind event.start (λ start. bind (filled (raw_start start)) provider.parse_date)

  abbrev to_coordinate : Option Text → Option ℕ
  to_coordinate text = bind (filled text) (λ t. some (provider.to_number t))

  -- `null` where the event has no usable id, name or start.
  unfoldable pub to_provider_concert : TmEvent → Option ProviderConcert
  unfolding pick_image_url parse_start
  to_provider_concert event = bind (parse_start event) (λ start_at. bind (filled event.id) (λ id.
      bind (filled event.name) (λ name.
        let venue = first_of event.venues in
        some record {
          external_id = id;
          artist = get_or (bind (first_of event.attractions) (λ n. n)) name;
          title = name;
          venue = get_or (bind venue (λ v. v.name)) (codes "TBA");
          city = get_or (bind venue (λ v. v.city)) [];
          country = get_or (bind venue (λ v. v.country)) [];
          lat = to_coordinate (bind venue (λ v. v.latitude));
          lng = to_coordinate (bind venue (λ v. v.longitude));
          start_at = start_at;
          image_url = pick_image_url event.images;
          genre = bind (first_of event.genres) (λ n. n);
          ticket_url = event.url;
        })))

  abbrev mapped : List TmEvent → List ProviderConcert
  mapped [] = []
  mapped (event ∷ events) = elim (to_provider_concert event) [
    | none ↦ mapped events
    | some concert ↦ concert ∷ mapped events
  ]

  unfoldable pub search_events : SearchConcertsDto → Option (List ProviderConcert)
  search_events dto =
      if provider.is_configured
      then bind (provider.fetch_events dto) (λ events. some (mapped (get_or events [])))
      else none
