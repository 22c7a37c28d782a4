-- ===== src/Availability/Sale.antt =====
-- A stay that is answered as bookable can be counted in: `check` of
-- backend/src/modules/inventory/availability.service.ts against `incrementBooked` of
-- backend/src/modules/inventory/inventory.service.ts.
use kars_hotel.Base.{
  find-misses, ℕ, zero, suc, ◌+◌, ◌-◌, ◌≤◌, ◌<◌, ◌≡◌, refl, sym, ap, subst, ◌∙◌, ◌⊎◌, inl, inr,
  Bool, true, false, Option, none, some, List, [], ◌∷◌, ◌++◌, ◌==◌, arith, find, contains, select,
  select-In, In-select, In, In-append, Bool-cases, Option-cases,
}
use kars_hotel.Base.Result.{Result-cases, ok}
use kars_hotel.Inventory.{
  InventoryRow, Store, room_count, fresh_row, find_row, insert_missing, ensure, each_day,
  increment_booked,
}
use kars_hotel.Inventory.Capacity.{increment_booked-refuses}
use kars_hotel.Availability.Tables.{Tables, Query, Cache}
use kars_hotel.Availability.Check.{last_match, inventory_of, inventory_row_of, cached_answer, check}
use kars_hotel.Availability.Bookable.{EachDay, NightSells, all_rooms, taken_rooms, check-bookable}

module _ {A : Type 0} (p : A → Bool) where
  last_match-In :
      (xs : List A) (best : Option A) (a : A)
      → last_match p xs best ≡ some a
      → (In a xs × (p a ≡ true)) ⊎ (best ≡ some a)
  unfolding last_match
  last_match-In [] best a h = inr h
  last_match-In (x ∷ xs) best a h = elim (last_match-In xs _ a h) [
    | inl (i, y) ↦ inl (inr i, y)
    | inr e ↦ elim (Bool-cases (p x)) [
      | inl y ↦ let same : x ≡ a = ground arith in inl (inl (sym same), ap p (sym same) ∙ y)
      | inr n ↦ inr (ground arith)
    ]
  ]

  last_match-none :
      (xs : List A) (best : Option A)
      → last_match p xs best ≡ none
      → (best ≡ none) × ((a : A) → In a xs → p a ≡ false)
  unfolding last_match
  last_match-none [] best h = (h, λ a i. absurd i)
  last_match-none (x ∷ xs) best h =
      let (e, rest) = last_match-none xs _ h in
      elim (Bool-cases (p x)) [
        | inl y ↦ absurd (ground arith)
        | inr n ↦ (ground arith, λ a i. elim i [ inl q ↦ ap p q ∙ n | inr j ↦ rest a j ])
      ]

find-append :
    {A : Type 0} (p : A → Bool) (xs ys : List A) → find p (xs ++ ys) ≡ none → find p xs ≡ none
find-append p [] ys h = refl
find-append p (x ∷ xs) ys h = ground (arith, find-append p xs ys)

-- The row that `ensure` leaves for a day is one that there was, or a new one for a day with none.
ensure-In :
    (room_type count : ℕ) (ds : List ℕ) (rows : List InventoryRow) (r : InventoryRow)
    → In r (ensure room_type count ds rows)
    → In r rows ⊎ ((d : ℕ) × (r ≡ fresh_row room_type count d) × (find_row room_type d rows ≡ none))
unfolding ensure
ensure-In room_type count [] rows r i = inl i
ensure-In room_type count (d ∷ ds) rows r i = elim (Option-cases (find_row room_type d rows)) [
  | inl gap ↦
      elim (ensure-In room_type count ds (rows ++ fresh_row room_type count d ∷ []) r (
        subst
          (λ o.
            In r (ensure room_type count ds (insert_missing (fresh_row room_type count d) o rows)))
          gap i)) [
            | inl j ↦ elim (In-append rows _ r j) [
              | inl old ↦ inl old
              | inr (inl e) ↦ inr (d, e, gap)
              | inr (inr none_left) ↦ absurd none_left
            ]
            | inr (k, e, away) ↦ inr (k, e, find-append _ rows _ away)
          ]
  | inr (x, there) ↦ ensure-In room_type count ds rows r (
      subst
        (λ o.
          In r (ensure room_type count ds (insert_missing (fresh_row room_type count d) o rows)))
        there i)
]

contains-each_day :
    (n from d : ℕ) → contains d (each_day n from) ≡ true → (from ≤ d) × (d < from + n)
unfolding each_day
contains-each_day zero from d h = cc
contains-each_day (suc n) from d h = ground (arith, contains-each_day n (from + 1) d)

-- At most one row for a category and a day, as the table's key says.
abbrev pub OneRow : List InventoryRow → Type 0
OneRow rows =
    (r r' : InventoryRow)
    → In r rows
    → In r' rows
    → r.room_type_id ≡ r'.room_type_id
    → r.date ≡ r'.date
    → r ≡ r'

module _ (q : Query) (t : Tables) where
  -- The row that the answer takes for a day is the one there is, or there is none.
  inventory_of-row :
      (d : ℕ) (r : InventoryRow)
      → OneRow t.inventory
      → In r t.inventory
      → r.room_type_id ≡ q.room_type_id
      → r.date ≡ d
      → q.check_in ≤ d
      → d ≤ q.check_out
      → inventory_of q t d ≡ some r
  unfolding inventory_of
  inventory_of-row d r one i e f from to =
      let p : InventoryRow → Bool = λ r. r.date == d in
      let rows = select (inventory_row_of q) t.inventory in
      let here : In r rows = In-select (inventory_row_of q) t.inventory r i (ground arith) in
      elim (Option-cases (last_match p rows none)) [
        | inl gone ↦ absurd (ground (arith, (last_match-none p rows none gone).1 r here))
        | inr (x, found) ↦ elim (last_match-In p rows none x found) [
          | inl (j, y) ↦
              let (k, z) = select-In (inventory_row_of q) t.inventory x j in
              found ∙ ap some (one x r k i (ground arith) (ground arith))
          | inr no_best ↦ cc
        ]
      ]

  inventory_of-none :
      (d : ℕ) → find_row q.room_type_id d t.inventory ≡ none → inventory_of q t d ≡ none
  unfolding inventory_of
  inventory_of-none d gap =
      let p : InventoryRow → Bool = λ r. r.date == d in
      let rows = select (inventory_row_of q) t.inventory in
      elim (Option-cases (last_match p rows none)) [
        | inl gone ↦ gone
        | inr (x, found) ↦ elim (last_match-In p rows none x found) [
          | inl (j, y) ↦
              let (k, z) = select-In (inventory_row_of q) t.inventory x j in
              absurd (ground (arith, find-misses _ t.inventory x gap k))
          | inr no_best ↦ cc
        ]
      ]

-- A stay with a night that `check` answers as bookable, with nothing in the cache, can be counted in
-- at once: if the table has one row for a category and a day, booking one room for its nights
-- succeeds.
pub bookable-increment_booked :
    (f : ℕ → ℕ → List ℕ) (days : EachDay f) (q : Query) (t : Tables) (c : Cache) (s : Store)
    → q.check_in < q.check_out
    → OneRow t.inventory
    → s.inventory ≡ t.inventory
    → s.rooms ≡ t.rooms
    → cached_answer q c.answers ≡ none
    → (check f q t c).0.bookable ≡ true
    → (s' : Store) × (increment_booked q.room_type_id
          (each_day (q.check_out - q.check_in) q.check_in)
          1
          s
        ≡ ok s')
bookable-increment_booked f days q t c s ordered one rows rooms miss yes_all =
    let n = q.check_out - q.check_in in
    elim (Result-cases (increment_booked q.room_type_id (each_day n q.check_in) 1 s)) [
      | inl done ↦ done
      | inr (why, refused) ↦
          let (r, i, inside, full) =
            increment_booked-refuses q.room_type_id (each_day n q.check_in) 1 s why refused in
          let (from, to) = contains-each_day n q.check_in r.date (ground arith) in
          let k = r.date - q.check_in in
          let night : NightSells q t n k =
            (check-bookable f days q t ordered c miss).0 yes_all k (omega arith) in
          let at : q.check_in + k ≡ r.date = omega arith in
          let count = room_count q.room_type_id t.rooms in
          let left : ((x : Option InventoryRow)
              → inventory_of q t r.date ≡ x
              → taken_rooms x < all_rooms count x) =
            λ x e.
              subst (λ o. taken_rooms o < all_rooms count o) (ap (inventory_of q t) at ∙ e)
                night.room_left in
          elim (ensure-In q.room_type_id _ _ s.inventory r i) [
            | inl old ↦
                let now =
                  inventory_of-row q t r.date r one (subst (In r) rows old) (ground arith) refl from
                    (omega arith) in
                absurd (ground (arith, left (some r) now))
            | inr (d, e, gap) ↦
                let same : r.date ≡ d = ap (λ (x : InventoryRow). x.date) e in
                let none_there =
                  inventory_of-none q t d
                    (subst (λ rs. find_row q.room_type_id d rs ≡ none) rows gap) in
                let counts : room_count q.room_type_id s.rooms ≡ count =
                  ap (room_count q.room_type_id) rooms in
                absurd (ground (arith, left none (ap (inventory_of q t) same ∙ none_there)))
          ]
    ]
