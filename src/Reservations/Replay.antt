-- ===== src/Reservations/Replay.antt =====
-- A request of a partner that comes twice (backend/src/modules/reservations/reservations.service.ts,
-- `create` and `channelReservation`).
use kars_hotel.Base.{
  ℕ, ◌≡◌, refl, sym, ap, ◌∙◌, Bool, true, not, Option, none, some, List, [], ◌∷◌, ◌++◌, ltb, find,
  find-map-some, In, In-find, arith, if◌then◌else◌, inl, inr, Bool-cases,
}
use kars_hotel.Base.Text.{text_eq_refl, text_eq-eq, Text, text_eq}
use kars_hotel.Base.Result.{ok, err, >>=-eq-ok, refuse_if-then, ok-injective}
use kars_hotel.Hotel.{Hotel, Reservation, Room, key_reused, date_conflict}
use kars_hotel.Reservations.Request.{CreateReservation, PartnerStayInfo, ChannelContext}
use kars_hotel.Reservations.Create.{
  Created, created_of, has_key, is_text, same_payload, channel_reservation, new_reservation,
  create_fresh, replayed_or, create_reservation,
}
use kars_hotel.Reservations.Since.{Since, Since-Grows}
use kars_hotel.Reservations.Steps.{create_fresh-Fresh}

-- The context of a request under a key.
abbrev pub keyed : ℕ → Text → Text → Option ChannelContext
keyed partner key hash = some (record {
  partner_id = partner;
  idempotency = some (record { key = key; payload_hash = hash });
})

find-append_none :
    {A : Type 0} (p : A → Bool) (xs : List A) (a : A)
    → find p xs ≡ none
    → p a ≡ true
    → find p (xs ++ a ∷ []) ≡ some a
find-append_none p [] a h q = ground arith
find-append_none p (x ∷ xs) a h q = ground (arith, find-append_none p xs a)

-- What a first request under a key leaves: a row under the key, with the hash, that it answered.
record Keyed (partner : ℕ) (key hash : Text) (c : Created) (h : Hotel) : Type 0 where
  row : Reservation
  found : find (has_key partner key) h.reservations ≡ some row
  answer : created_of row ≡ c
  hashed : row.partner_payload_hash ≡ some hash

new_reservation-has_key :
    (dto : CreateReservation) (stay : PartnerStayInfo) (partner : ℕ) (key hash : Text) (room : Room)
    (place id : ℕ)
    → (has_key partner key (new_reservation dto stay (keyed partner key hash) room place id) ≡ true)
      × ((new_reservation dto stay (keyed partner key hash) room place id).partner_payload_hash
          ≡ some hash)
unfolding has_key new_reservation
new_reservation-has_key dto stay partner key hash room place id =
    (ground (arith, text_eq_refl key), refl)

is_text-eq : (t : Text) (o : Option Text) → is_text t o ≡ true → o ≡ some t
is_text-eq t none h = cc
is_text-eq t (some u) h = ap some (text_eq-eq u t h)

same_payload-some :
    (hash : Text) (o : Option Reservation) (c : Created)
    → same_payload hash o ≡ ok (some c)
    → (r : Reservation) × (o ≡ some r) × (created_of r ≡ c) × (r.partner_payload_hash ≡ some hash)
same_payload-some hash none c e = cc
same_payload-some hash (some r) c e = elim (Bool-cases (is_text hash r.partner_payload_hash)) [
  | inl y ↦ (r, refl, ground arith, is_text-eq hash r.partner_payload_hash y)
  | inr n ↦ absurd (ground arith)
]

same_payload-none :
    (hash : Text) (o : Option Reservation) → same_payload hash o ≡ ok none → o ≡ none
same_payload-none hash none e = refl
same_payload-none hash (some r) e = ground arith

create_reservation-Keyed :
    (dto : CreateReservation) (stay : PartnerStayInfo) (partner : ℕ) (key hash : Text)
    (user : Option ℕ) (h : Hotel) (c : Created) (h' : Hotel)
    → create_reservation dto stay (keyed partner key hash) user h ≡ ok (c, h')
    → Keyed partner key hash c h'
unfolding create_reservation channel_reservation
create_reservation-Keyed dto stay partner key hash user h c h' e =
    let (d, q₁) = refuse_if-then (not (ltb dto.check_in dto.check_out)) date_conflict _ e in
    let (replay, r, q₂) =
      >>=-eq-ok (channel_reservation (keyed partner key hash) h.reservations) _ q₁ in
    either replay r q₂
  where
    either :
        (replay : Option Created)
        → channel_reservation (keyed partner key hash) h.reservations ≡ ok replay
        → replayed_or replay h (create_fresh dto stay (keyed partner key hash) user h) ≡ ok (c, h')
        → Keyed partner key hash c h'
    either none r q =
        let F = create_fresh-Fresh dto stay (keyed partner key hash) user h c h' q in
        let row = new_reservation dto stay (keyed partner key hash) F.room F.place h.next_id in
        let (mine, hashed) =
          new_reservation-has_key dto stay partner key hash F.room F.place h.next_id in
        record {
          row = row;
          found =
              ap (find (has_key partner key)) F.tables.reservations
              ∙ find-append_none (has_key partner key) h.reservations row
                  (same_payload-none hash (find (has_key partner key) h.reservations) r) mine;
          answer = sym F.answer;
          hashed = hashed;
        }
    either (some c₀) r q =
        let out = ok-injective (c₀, h) (c, h') q in
        let (row, found, answer, hashed) =
          same_payload-some hash (find (has_key partner key) h.reservations) c₀ r in
        record {
          row = row;
          found =
              ap (λ (x : Created × Hotel). find (has_key partner key) x.1.reservations) (sym out)
              ∙ found;
          answer = answer ∙ ap (λ (x : Created × Hotel). x.0) out;
          hashed = hashed;
        }

-- Once a request under a key has succeeded, then after any other requests one after the other the same
-- key with the same payload hash is answered with the reservation that was made, in its present state,
-- and changes nothing, and with another hash it is refused; the rest of the request, if its dates are
-- in order, plays no part.
pub create_reservation-replays :
    (dto again : CreateReservation) (stay stay' : PartnerStayInfo) (partner : ℕ)
    (key hash hash' : Text) (user user' : Option ℕ) (h : Hotel) (c : Created) (h' h'' : Hotel)
    → create_reservation dto stay (keyed partner key hash) user h ≡ ok (c, h')
    → Since h' h''
    → ltb again.check_in again.check_out ≡ true
    → (r : Reservation) × In r h''.reservations
      × (r.id ≡ c.id)
      × (create_reservation again stay' (keyed partner key hash') user' h''
          ≡ (if text_eq hash hash' then ok (created_of r, h'') else err key_reused))
unfolding create_reservation channel_reservation has_key
create_reservation-replays dto again stay stay' partner key hash hash' user user' h c h' h'' e past
      d =
    let K = create_reservation-Keyed dto stay partner key hash user h c h' e in
    let G = Since-Grows past in
    let L = G.later K.row in
    let found : find (has_key partner key) h''.reservations ≡ some (G.grown K.row) =
      ap (find (has_key partner key)) G.rows
      ∙ find-map-some (has_key partner key) G.grown
          (λ x. rw ((G.later x).managed, (G.later x).partner, (G.later x).key) refl) h'.reservations
          G.added K.row K.found in
    (
      G.grown K.row,
      In-find (has_key partner key) h''.reservations (G.grown K.row) found,
      L.id ∙ ap (λ (x : Created). x.id) K.answer,
      rw (d, found, L.hash ∙ K.hashed) (ground arith),
    )
