-- ===== src/Reservations/Changes.antt =====
-- What an edit changed, for the journal: backend/src/modules/reservations/reservations.service.ts,
-- the end of the transaction of `update`.
use kars_hotel.Base.{ℕ, Bool, true, false, Option, none, some, List, [], ◌∷◌, ◌==◌, if◌then◌else◌}
use kars_hotel.Base.Text.{Text, text_eq}
use kars_hotel.Hotel.{Reservation, Value, absent, words, number, status_value, source_value, Change}
use kars_hotel.Reservations.Request.{status_name, source_name}

abbrev text_value : Option Text → Value
text_value none = absent
text_value (some t) = words t

abbrev number_value : Option ℕ → Value
number_value none = absent
number_value (some n) = number n

-- `was` and `now`: the compared fields, in the order of the code.
unfoldable pub journal_values : Reservation → List Value
journal_values r =
    number r.room_id
    ∷ number r.check_in
    ∷ number r.check_out
    ∷ words r.guest_name
    ∷ text_value r.phone
    ∷ text_value r.email
    ∷ number r.adults
    ∷ number r.children
    ∷ status_value r.status
    ∷ source_value r.source
    ∷ text_value r.notes
    ∷ number_value r.total_price
    ∷ number r.place_number
    ∷ text_value r.arrival_at
    ∷ text_value r.departure_at
    ∷ text_value r.flight
    ∷ []

-- `String(a ?? '') === String(b ?? '')` for two values of one field.
abbrev pub same_value : Value → Value → Bool
same_value absent absent = true
same_value absent (words t) = text_eq t []
same_value (words t) absent = text_eq t []
same_value (words t) (words u) = text_eq t u
same_value (number n) (number m) = n == m
same_value (status_value s) (status_value t) = text_eq (status_name s) (status_name t)
same_value (source_value s) (source_value t) = text_eq (source_name s) (source_name t)
same_value _ _ = false

unfoldable pub differing : List Value → List Value → List Change
differing (v ∷ vs) (w ∷ ws) =
    let rest = differing vs ws in
    if same_value v w then rest else record { before = v; after = w } ∷ rest
differing [] ws = []
differing (v ∷ vs) [] = []

unfoldable pub changes : Reservation → Reservation → List Change
changes was is = differing (journal_values was) (journal_values is)
