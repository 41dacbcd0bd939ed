-- ===== src/Frontend/Earnings.antt =====
-- frontend/src/app/features/dashboards/earnings.ts: the earnings that a driver's dashboard shows. A booking
-- and a trip are what the API shows of them, and a `Map` is a list in insertion order.
use gig_drive.Shared.{
  ℕ, ◌+◌, ◌*◌, ◌≤◌, Bool, true, false, ◌&&◌, ◌≡◌, refl, ◌∙◌, Option, List, [], ◌∷◌, arith, sum_by,
  sum_by-ext, filter, map, foldl, if◌then◌else◌, Bool-cases, get_or, inl, inr,
}
use gig_drive.Entities.{Currency, BookingStatus, same_booking_status}
use gig_drive.TripViews.{TripDto}
use gig_drive.Bookings.{BookingDto}

abbrev pub same_currency : Currency → Currency → Bool
same_currency Currency.eur Currency.eur = true
same_currency Currency.rsd Currency.rsd = true
same_currency _ _ = false

pub record CurrencyEarnings : Type 0 where
  pub currency : Currency
  pub total : ℕ
  pub paid : ℕ
  pub unpaid : ℕ

pub record Row : Type 0 where
  pub currency : Currency
  pub amount : ℕ
  pub paid : Bool

abbrev pub row_of : (ℕ → Option TripDto) → BookingDto → Row
row_of trips_by_id booking =
    let trip = get_or (trips_by_id booking.trip_id) booking.trip in
    record {
      currency = trip.currency;
      amount = booking.seats * trip.live_price.per_person;
      paid = booking.paid;
    }

abbrev no_earnings : Currency → CurrencyEarnings
no_earnings currency = record { currency = currency; total = 0; paid = 0; unpaid = 0 }

abbrev credit : Row → CurrencyEarnings → CurrencyEarnings
credit row current = record {
  currency = current.currency;
  total = current.total + row.amount;
  paid = if row.paid then current.paid + row.amount else current.paid;
  unpaid = if row.paid then current.unpaid else current.unpaid + row.amount;
}

-- `acc.get`, the change of the entry, and `acc.set`, which keeps the place of an entry that is there.
abbrev add_row : List CurrencyEarnings → Row → List CurrencyEarnings
add_row [] row = credit row (no_earnings row.currency) ∷ []
add_row (e ∷ es) row =
    if same_currency e.currency row.currency then credit row e ∷ es else e ∷ add_row es row

abbrev rows_of : (ℕ → Option TripDto) → List BookingDto → List Row
rows_of trips_by_id bookings =
    map (row_of trips_by_id)
      (filter (λ booking. same_booking_status booking.status BookingStatus.confirmed) bookings)

unfoldable pub aggregate_earnings : List BookingDto → (ℕ → Option TripDto) → List CurrencyEarnings
aggregate_earnings bookings trips_by_id = foldl add_row [] (rows_of trips_by_id bookings)

-- What the entries of a currency have of a column.
abbrev pub earned : Currency → (CurrencyEarnings → ℕ) → List CurrencyEarnings → ℕ
earned c f es = sum_by (λ e. if same_currency e.currency c then f e else 0) es

-- A column of the entries that a row adds to.
abbrev Adds : (CurrencyEarnings → ℕ) → (Row → ℕ) → Type 0
Adds f g =
    ((c : Currency) → f (no_earnings c) ≡ 0)
    × ((row : Row) (e : CurrencyEarnings) → f (credit row e) ≡ f e + g row)

module _ (f : CurrencyEarnings → ℕ) (g : Row → ℕ) (adds : Adds f g) (c : Currency) where
  add_row-earned :
      (es : List CurrencyEarnings) (row : Row)
      → earned c f (add_row es row)
        ≡ earned c f es + (if same_currency row.currency c then g row else 0)
  add_row-earned [] row =
      let fresh = adds.0 row.currency in
      let more = adds.1 row (no_earnings row.currency) in ground arith
  add_row-earned (e ∷ es) row = elim (Bool-cases (same_currency e.currency row.currency)) [
    | inl same ↦
        let more = adds.1 row e in
        let equal : same_currency e.currency c ≡ same_currency row.currency c =
          same_at e.currency row.currency same in
        rw same (ground arith)
    | inr other ↦ rw other (omega (arith, add_row-earned es row))
  ]
    where
      same_at : (a b : Currency) → same_currency a b ≡ true → same_currency a c ≡ same_currency b c
      same_at Currency.eur Currency.eur s = refl
      same_at Currency.eur Currency.rsd s = absurd (ground arith)
      same_at Currency.rsd Currency.eur s = absurd (ground arith)
      same_at Currency.rsd Currency.rsd s = refl

  add_rows-earned :
      (es : List CurrencyEarnings) (rows : List Row)
      → earned c f (foldl add_row es rows)
        ≡ earned c f es + sum_by (λ row. if same_currency row.currency c then g row else 0) rows
  add_rows-earned es [] = omega arith
  add_rows-earned es (row ∷ rows) =
      omega (arith, add_rows-earned (add_row es row) rows, add_row-earned es row)

-- A confirmed booking of a trip whose price is in a currency.
abbrev pub counts : (ℕ → Option TripDto) → Currency → BookingDto → Bool
counts trips_by_id c b =
    same_booking_status b.status BookingStatus.confirmed
    && same_currency (get_or (trips_by_id b.trip_id) b.trip).currency c

aggregate-earned :
    (f : CurrencyEarnings → ℕ) (g : Row → ℕ)
    → Adds f g
    → (bookings : List BookingDto) (trips_by_id : ℕ → Option TripDto) (c : Currency)
    → earned c f (aggregate_earnings bookings trips_by_id)
      ≡ sum_by (λ b. if counts trips_by_id c b then g (row_of trips_by_id b) else 0) bookings
unfolding aggregate_earnings
aggregate-earned f g adds bookings trips_by_id c =
    omega (arith, add_rows-earned f g adds c [] (rows_of trips_by_id bookings), rows bookings)
  where
    rows :
        (bs : List BookingDto)
        → sum_by (λ row. if same_currency row.currency c then g row else 0) (rows_of trips_by_id bs)
          ≡ sum_by (λ b. if counts trips_by_id c b then g (row_of trips_by_id b) else 0) bs
    rows [] = refl
    rows (b ∷ bs) = ground (arith, rows bs)

abbrev pub entries : Currency → List CurrencyEarnings → ℕ
entries c es = earned c (λ e. 1) es

-- A row of another currency adds no entry of a currency, and no row adds a second one.
add_row-entries :
    (c : Currency) (es : List CurrencyEarnings) (row : Row)
    → (same_currency row.currency c ≡ false → entries c (add_row es row) ≡ entries c es)
      × (entries c es ≤ 1 → entries c (add_row es row) ≤ 1)
add_row-entries c [] row = (ground arith, ground arith)
add_row-entries c (e ∷ es) row =
    let (other, once) = add_row-entries c es row in (ground arith, ground arith)

add_rows-entries :
    (c : Currency) (es : List CurrencyEarnings) (rows : List Row)
    → entries c es ≤ 1
    → entries c (foldl add_row es rows) ≤ 1
add_rows-entries c es [] h = h
add_rows-entries c es (row ∷ rows) h =
    add_rows-entries c (add_row es row) rows ((add_row-entries c es row).1 h)

-- The dashboard has one entry at most for a currency, and it adds up the confirmed bookings of trips in
-- that currency, seats times the live price: all of them, those that are paid, and those that are not.
pub aggregate_earnings-totals :
    (bookings : List BookingDto) (trips_by_id : ℕ → Option TripDto) (c : Currency)
    → let es = aggregate_earnings bookings trips_by_id in
      let amount : BookingDto → ℕ =
        λ b. if counts trips_by_id c b then (row_of trips_by_id b).amount else 0 in
      (entries c es ≤ 1)
      × (earned c (λ e. e.total) es ≡ sum_by amount bookings)
      × (earned c (λ e. e.paid) es ≡ sum_by (λ b. if b.paid then amount b else 0) bookings)
      × (earned c (λ e. e.unpaid) es ≡ sum_by (λ b. if b.paid then 0 else amount b) bookings)
unfolding aggregate_earnings
aggregate_earnings-totals bookings trips_by_id c = (
  add_rows-entries c [] (rows_of trips_by_id bookings) (omega arith),
  aggregate-earned (λ e. e.total) (λ row. row.amount) (λ c. refl, λ row e. refl) bookings
      trips_by_id c,
  aggregate-earned (λ e. e.paid) (λ row. if row.paid then row.amount else 0)
        (λ c. refl, λ row e. ground arith) bookings trips_by_id c
      ∙ sum_by-ext _ _ (λ b. ground arith) bookings,
  aggregate-earned (λ e. e.unpaid) (λ row. if row.paid then 0 else row.amount)
        (λ c. refl, λ row e. ground arith) bookings trips_by_id c
      ∙ sum_by-ext _ _ (λ b. ground arith) bookings,
)
