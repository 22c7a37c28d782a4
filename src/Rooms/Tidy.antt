-- ===== src/Rooms/Tidy.antt =====
-- What every operation on rooms keeps (backend/src/modules/rooms/rooms.service.ts).
use kars_hotel.Base.{
  In-map-of, In-left, ℕ, suc, ◌<◌, ◌≡◌, refl, sym, ap, ◌∙◌, inl, inr, true, false, none, List, [],
  ◌∷◌, ◌++◌, map, ◌==◌, ==_iff, arith, In, In-map, In-append, Bool-cases, if◌then◌else◌,
}
use kars_hotel.Hotel.{Reservation}
use kars_hotel.Rooms.Fund.{Room, is_archived, update_room}
use kars_hotel.Rooms.Service.{live_count}

-- A room in the archive is switched off and nobody is booked there, no two rooms share an id, and
-- every reservation has its room.
pub record IsTidy (rooms : List Room) (reservations : List Reservation) (next : ℕ) : Type 0 where
  pub put_off :
      (r : Room)
      → In r rooms
      → is_archived r ≡ true
      → (r.is_active ≡ false) × (live_count r.id reservations ≡ 0)
  pub one : (r r' : Room) → In r rooms → In r' rooms → r.id ≡ r'.id → r ≡ r'
  pub below : (r : Room) → In r rooms → r.id < next
  pub housed : (v : Reservation) → In v reservations → (r : Room) × In r rooms × (r.id ≡ v.room_id)

module _ {rooms : List Room} {vs : List Reservation} {next : ℕ} (tidy : IsTidy rooms vs next) where
  pub map-IsTidy :
      (g : Room → Room)
      → ((r : Room) → (g r).id ≡ r.id)
      → ((r : Room)
          → In r rooms
          → is_archived (g r) ≡ true
          → ((g r).is_active ≡ false) × (live_count r.id vs ≡ 0))
      → IsTidy (map g rooms) vs next
  map-IsTidy g same off = record {
    put_off = λ r i a.
        let (x, j, e) = In-map g rooms r i in
        let (idle, free) = off x j (ap is_archived (sym e) ∙ a) in
        (
          ap (λ (y : Room). y.is_active) e ∙ idle,
          ap (λ (y : Room). live_count y.id vs) e ∙ ap (λ n. live_count n vs) (same x) ∙ free,
        );
    one = λ r r' i i' q.
        let (x, j, e) = In-map g rooms r i in
        let (x', j', e') = In-map g rooms r' i' in
        let ids : x.id ≡ x'.id =
          sym (same x)
          ∙ ap (λ (y : Room). y.id) (sym e)
          ∙ q
          ∙ ap (λ (y : Room). y.id) e'
          ∙ same x' in
        e ∙ ap g (tidy.one x x' j j' ids) ∙ sym e';
    below = λ r i.
        let (x, j, e) = In-map g rooms r i in
        omega (arith, tidy.below x j, same x, ap (λ (y : Room). y.id) e);
    housed = λ v i. let (r, j, e) = tidy.housed v i in (g r, In-map-of g rooms r j, same r ∙ e);
  }

  -- The rows of one id are changed.
  pub update_room-IsTidy :
      (id : ℕ) (g : Room → Room)
      → ((r : Room) → (g r).id ≡ r.id)
      → ((r : Room)
          → In r rooms
          → r.id ≡ id
          → is_archived (g r) ≡ true
          → ((g r).is_active ≡ false) × (live_count r.id vs ≡ 0))
      → IsTidy (update_room id g rooms) vs next
  update_room-IsTidy id g same off =
      map-IsTidy (λ r. if r.id == id then g r else r)
        (λ r. elim (Bool-cases (r.id == id)) [ inl y ↦ rw y (same r) | inr n ↦ rw n refl ])
        (λ r i a. elim (Bool-cases (r.id == id)) [
          | inl y ↦ rw y (off r i ((==_iff r.id id).0 y) (rw y at a))
          | inr n ↦ rw n (tidy.put_off r i (rw n at a))
        ])

  pub add_room-IsTidy :
      (r : Room) → r.id ≡ next → r.archived_at ≡ none → IsTidy (rooms ++ r ∷ []) vs (suc next)
  add_room-IsTidy r new_id fresh = record {
    put_off = λ x i a. elim (In-append rooms (r ∷ []) x i) [
      | inl old ↦ tidy.put_off x old a
      | inr (inl e) ↦ absurd (ground (arith, sym (ap is_archived e) ∙ a))
      | inr (inr j) ↦ absurd j
    ];
    one = λ x y i j q. elim (In-append rooms (r ∷ []) x i) [
      | inl old ↦ elim (In-append rooms (r ∷ []) y j) [
        | inl old' ↦ tidy.one x y old old' q
        | inr (inl e) ↦ absurd (omega (arith, tidy.below x old, ap (λ (z : Room). z.id) e))
        | inr (inr k) ↦ absurd k
      ]
      | inr (inr k) ↦ absurd k
      | inr (inl e) ↦ elim (In-append rooms (r ∷ []) y j) [
        | inl old' ↦ absurd (omega (arith, tidy.below y old', ap (λ (z : Room). z.id) e))
        | inr (inl e') ↦ e ∙ sym e'
        | inr (inr k) ↦ absurd k
      ]
    ];
    below = λ x i. elim (In-append rooms (r ∷ []) x i) [
      | inl old ↦ omega (arith, tidy.below x old)
      | inr (inl e) ↦ omega (arith, ap (λ (z : Room). z.id) e)
      | inr (inr k) ↦ absurd k
    ];
    housed = λ v i. let (x, j, e) = tidy.housed v i in (x, In-left rooms (r ∷ []) x j, e);
  }
