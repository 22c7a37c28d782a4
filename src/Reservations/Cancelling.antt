-- ===== src/Reservations/Cancelling.antt =====
-- Cancelling a reservation: backend/src/modules/reservations/reservations.service.ts.
use kars_hotel.Base.{
  ℕ, suc, Bool, true, false, not, Option, none, some, [], ◌∷◌, ◌++◌, ◌&&◌, if◌then◌else◌,
}
use kars_hotel.Base.Text.{Text, codes}
use kars_hotel.Base.Result.{Result, ok, err, ◌>>=◌, ◌>>◌, or_refuse}
use kars_hotel.Hotel.{
  Hotel, Reservation, Status, cancelled, checked_out, CancelRefusal, by_channel, already_closed,
  Refusal, reservation_not_found, cancel_refused, cancel, invalidated, notified_updated, journaled,
  find_reservation, update_reservation, emit, Value, absent, words, status_value,
}

abbrev pub is_closed : Status → Bool
is_closed cancelled = true
is_closed checked_out = true
is_closed _ = false

unfoldable pub cancel_refusal : Status → Bool → Bool → Option CancelRefusal
cancel_refusal status channel_managed from_channel =
    if channel_managed && not from_channel
    then some by_channel
    else if is_closed status
    then some already_closed
    else none

abbrev pub refuse_cancel : Option CancelRefusal → Result Refusal (Unit {0})
refuse_cancel none = ok tt
refuse_cancel (some r) = err (cancel_refused r)

abbrev or_empty : Option Text → Text
or_empty none = []
or_empty (some t) = t

-- `reason ? ... : ''`: an empty reason leaves no note.
abbrev notes_suffix : Option Text → Text
notes_suffix none = []
notes_suffix (some []) = []
notes_suffix (some (c ∷ t)) = 10 ∷ codes "[Cancelled: " ++ ((c ∷ t) ++ codes "]")

abbrev reason_value : Option Text → Value
reason_value none = absent
reason_value (some t) = words t

unfoldable pub journal_cancel : ℕ → Status → Option ℕ → Option Text → Hotel → Hotel
journal_cancel id before user reason = emit (
    journaled cancel id user (
      record { before = status_value before; after = status_value cancelled }
      ∷ record { before = absent; after = reason_value reason }
      ∷ [])
    ∷ [])

abbrev pub cancel_row : Option Text → Reservation → Reservation
cancel_row reason r = record r {
  status = cancelled;
  notes = some (or_empty r.notes ++ notes_suffix reason);
  version = suc r.version;
}

-- `cancel`
unfoldable pub cancel_reservation :
    ℕ → Option ℕ → Option Text → Bool → Hotel → Result Refusal (ℕ × Hotel)
cancel_reservation id user reason from_channel h = do
  cur ← or_refuse (find_reservation id h.reservations) reservation_not_found
  refuse_cancel (cancel_refusal cur.status cur.channel_managed from_channel)
  let h₁ = record h { reservations = update_reservation id (cancel_row reason) h.reservations }
  let h₂ = journal_cancel id cur.status user reason h₁
  ok (suc cur.version, emit (invalidated ∷ notified_updated ∷ []) h₂)
