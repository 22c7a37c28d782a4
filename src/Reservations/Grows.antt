-- ===== src/Reservations/Grows.antt =====
-- What no request ever undoes: rows are never taken out of the table, and the ids, the keys of the
-- partner and the order of the rows stay, while versions only rise
-- (backend/src/modules/reservations/reservations.service.ts).
use kars_hotel.Base.{
  ℕ, ◌≤◌, ◌≡◌, refl, sym, ap, ◌∙◌, List, [], ◌∷◌, ◌++◌, map, ◌==◌, arith, if◌then◌else◌, inl, inr,
  Bool-cases,
}
use mathlib.Core.List.{map-append, append_assoc, append-nil}
use kars_hotel.Hotel.{Reservation, update_reservation}

-- The same row, later.
pub record Later (r r' : Reservation) : Type 0 where
  pub id : r'.id ≡ r.id
  pub managed : r'.channel_managed ≡ r.channel_managed
  pub partner : r'.partner_id ≡ r.partner_id
  pub key : r'.partner_idempotency_key ≡ r.partner_idempotency_key
  pub hash : r'.partner_payload_hash ≡ r.partner_payload_hash
  pub version : r.version ≤ r'.version

pub record Grows (rs rs' : List Reservation) : Type 0 where
  pub grown : Reservation → Reservation
  pub added : List Reservation
  pub rows : rs' ≡ map grown rs ++ added
  pub later : (r : Reservation) → Later r (grown r)

pub Later-refl : (r : Reservation) → Later r r
Later-refl r = record {
  id = refl;
  managed = refl;
  partner = refl;
  key = refl;
  hash = refl;
  version = omega arith;
}

map_self : (rs : List Reservation) → map (λ (r : Reservation). r) rs ≡ rs
map_self [] = refl
map_self (r ∷ rs) = ap (λ t. r ∷ t) (map_self rs)

map-map :
    (f g : Reservation → Reservation) (rs : List Reservation)
    → map g (map f rs) ≡ map (λ r. g (f r)) rs
map-map f g [] = refl
map-map f g (r ∷ rs) = ap (λ t. g (f r) ∷ t) (map-map f g rs)

pub append-Grows : (rs added : List Reservation) → Grows rs (rs ++ added)
append-Grows rs added = record {
  grown = λ r. r;
  added = added;
  rows = ap (λ t. t ++ added) (sym (map_self rs));
  later = Later-refl;
}

pub Grows-refl : (rs rs' : List Reservation) → rs' ≡ rs → Grows rs rs'
Grows-refl rs rs' e = record {
  grown = λ r. r;
  added = [];
  rows = e ∙ sym (append-nil rs) ∙ ap (λ t. t ++ []) (sym (map_self rs));
  later = Later-refl;
}

pub Grows-trans : (rs ss ts : List Reservation) → Grows rs ss → Grows ss ts → Grows rs ts
Grows-trans rs ss ts p q = record {
  grown = λ r. q.grown (p.grown r);
  added = map q.grown p.added ++ q.added;
  rows =
      q.rows
      ∙ ap (λ t. map q.grown t ++ q.added) p.rows
      ∙ ap (λ t. t ++ q.added) (map-append q.grown (map p.grown rs) p.added)
      ∙ append_assoc (map q.grown (map p.grown rs)) (map q.grown p.added) q.added
      ∙ ap (λ t. t ++ (map q.grown p.added ++ q.added)) (map-map p.grown q.grown rs);
  later = λ r.
      let a = p.later r in
      let b = q.later (p.grown r) in
      record {
        id = b.id ∙ a.id;
        managed = b.managed ∙ a.managed;
        partner = b.partner ∙ a.partner;
        key = b.key ∙ a.key;
        hash = b.hash ∙ a.hash;
        version = omega (arith, a.version, b.version);
      };
}

pub update-Grows :
    (id : ℕ) (f : Reservation → Reservation) (rs : List Reservation)
    → ((r : Reservation) → Later r (f r))
    → Grows rs (update_reservation id f rs)
update-Grows id f rs later = record {
  grown = λ r. if r.id == id then f r else r;
  added = [];
  rows = sym (append-nil (update_reservation id f rs));
  later =
      λ r. elim (Bool-cases (r.id == id)) [ inl y ↦ rw y (later r) | inr n ↦ rw n (Later-refl r) ];
}
