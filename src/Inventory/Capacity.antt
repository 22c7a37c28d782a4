-- ===== src/Inventory/Capacity.antt =====
-- Booking never exceeds a category's rooms (backend/src/modules/inventory/inventory.service.ts,
-- `incrementBooked` and `decrementBooked`).
use kars_hotel.Base.{
  ℕ, ◌+◌, ◌-◌, ◌≤◌, ◌<◌, ◌≡◌, refl, sym, ap, ◌∙◌, subst, inl, inr, Bool, true, false, Option, none,
  some, List, [], ◌∷◌, arith, In, In-map, In-find, find-some, find, select, select-In, In-select,
  if◌then◌else◌, Bool-cases,
}
use kars_hotel.Base.Result.{Result, ok, err, ◌>>=◌, >>=-eq-ok, ok-injective}
use kars_hotel.Inventory.{
  InventoryRow, Store, InventoryRefusal, in_dates, ensure, room_count, lacks, refuse_full, book,
  unbook, change_rows, increment_booked, decrement_booked,
}

refuse_full-ok :
    (o : Option InventoryRow) (rows out : List InventoryRow)
    → refuse_full o rows ≡ ok out
    → (o ≡ none) × (out ≡ rows)
refuse_full-ok none rows out e = (refl, sym (ok-injective rows out e))
refuse_full-ok (some r) rows out e = cc

find-none :
    {A : Type 0} (p : A → Bool) (xs : List A) (a : A) → find p xs ≡ none → In a xs → p a ≡ false
find-none p [] a h i = absurd i
find-none p (x ∷ xs) a h (inl e) = ap p e ∙ ground arith
find-none p (x ∷ xs) a h (inr i) = find-none p xs a (ground arith) i

-- What a success did: every row of these days had room.
record Booked (room_type : ℕ) (dates : List ℕ) (delta : ℕ) (s s' : Store) : Type 0 where
  room :
      (r : InventoryRow)
      → In r (ensure room_type (room_count room_type s.rooms) dates s.inventory)
      → in_dates room_type dates r ≡ true
      → lacks delta r ≡ false
  rows :
      s'.inventory
      ≡ change_rows room_type dates
          (book delta)
          (ensure room_type (room_count room_type s.rooms) dates s.inventory)

change_rows-none :
    (room_type : ℕ) (f : InventoryRow → InventoryRow) (rows : List InventoryRow)
    → change_rows room_type [] f rows ≡ rows
change_rows-none room_type f [] = refl
change_rows-none room_type f (r ∷ rows) = ground (arith, change_rows-none room_type f rows)

increment_booked-Booked :
    (room_type : ℕ) (dates : List ℕ) (delta : ℕ) (s s' : Store)
    → increment_booked room_type dates delta s ≡ ok s'
    → Booked room_type dates delta s s'
unfolding increment_booked ensure
increment_booked-Booked room_type [] delta s s' e =
    let same = ok-injective s s' e in
    record {
      room = λ r i d. absurd (ground arith);
      rows =
          ap (λ (x : Store). x.inventory) (sym same)
          ∙ sym (change_rows-none room_type (book delta) s.inventory);
    }
increment_booked-Booked room_type (d ∷ ds) delta s s' e =
    let dates = d ∷ ds in
    let rows = ensure room_type (room_count room_type s.rooms) dates s.inventory in
    let full = find (lacks delta) (select (in_dates room_type dates) rows) in
    let (out, q, w) = >>=-eq-ok (refuse_full full rows) _ e in
    let (fits, same) = refuse_full-ok full rows out q in
    record {
      room = λ r i inside.
          find-none (lacks delta) (select (in_dates room_type dates) rows) r fits
            (In-select (in_dates room_type dates) rows r i inside);
      rows =
          ap (λ (x : Store). x.inventory) (sym (ok-injective _ s' w))
          ∙ ap (change_rows room_type dates (book delta)) same;
    }

booked_fits :
    (room_type : ℕ) (dates : List ℕ) (delta : ℕ) (a r : InventoryRow)
    → r ≡ (if in_dates room_type dates a then book delta a else a)
    → in_dates room_type dates r ≡ true
    → (in_dates room_type dates a ≡ true → lacks delta a ≡ false)
    → r.booked_rooms + r.blocked_rooms ≤ r.total_rooms
booked_fits room_type dates delta a r e inside room =
    elim (Bool-cases (in_dates room_type dates a)) [
      | inl y ↦ rw (e, y) (ground (arith, room y))
      | inr n ↦ absurd (ground arith)
    ]

-- After a booking that succeeds no day of it is sold over the category's rooms: booked and blocked
-- rooms together are at most all of them.
pub increment_booked-fits :
    (room_type : ℕ) (dates : List ℕ) (delta : ℕ) (s s' : Store) (r : InventoryRow)
    → increment_booked room_type dates delta s ≡ ok s'
    → In r s'.inventory
    → in_dates room_type dates r ≡ true
    → r.booked_rooms + r.blocked_rooms ≤ r.total_rooms
increment_booked-fits room_type dates delta s s' r e i inside =
    let B = increment_booked-Booked room_type dates delta s s' e in
    let rows = ensure room_type (room_count room_type s.rooms) dates s.inventory in
    let (a, ia, ea) =
      In-map (λ r. if in_dates room_type dates r then book delta r else r) rows r
        (subst (In r) B.rows i) in
    booked_fits room_type dates delta a r ea inside (B.room a ia)

unbook-book : (delta : ℕ) (r : InventoryRow) → unbook delta (book delta r) ≡ r
unbook-book delta r = rw (back r.booked_rooms) refl
  where
    back : (n : ℕ) → n + delta - delta ≡ n
    back n = omega arith

change_rows-back :
    (room_type : ℕ) (dates : List ℕ) (delta : ℕ) (rows : List InventoryRow)
    → change_rows room_type dates (unbook delta) (change_rows room_type dates (book delta) rows)
      ≡ rows
change_rows-back room_type dates delta [] = refl
change_rows-back room_type dates delta (r ∷ rows) =
    ground (arith, unbook-book delta r, change_rows-back room_type dates delta rows)

-- A booking that is taken back leaves the rows as if the days had only been looked at: those there
-- were, and those that `ensure` made for days with none.
pub decrement_booked-undoes :
    (room_type : ℕ) (dates : List ℕ) (delta : ℕ) (s s' : Store)
    → increment_booked room_type dates delta s ≡ ok s'
    → (decrement_booked room_type dates delta s').inventory
      ≡ ensure room_type (room_count room_type s.rooms) dates s.inventory
unfolding decrement_booked
decrement_booked-undoes room_type dates delta s s' e =
    let B = increment_booked-Booked room_type dates delta s s' e in
    ap (change_rows room_type dates (unbook delta)) B.rows
    ∙ change_rows-back room_type dates delta _

refuse_full-err :
    (o : Option InventoryRow) (rows : List InventoryRow)
    (f : List InventoryRow → Result InventoryRefusal Store) (e : InventoryRefusal)
    → ((x : List InventoryRow) → (y : Store) × (f x ≡ ok y))
    → (refuse_full o rows >>= f) ≡ err e
    → (r : InventoryRow) × (o ≡ some r)
refuse_full-err none rows f e fine q = absurd (clash (fine rows).1 q)
  where
    clash : f rows ≡ ok (fine rows).0 → f rows ≡ err e → ⊥
    clash p q = cc
refuse_full-err (some r) rows f e fine q = (r, refl)

-- A booking is refused only for want of rooms: some day of it has fewer rooms left than are wanted.
pub increment_booked-refuses :
    (room_type : ℕ) (dates : List ℕ) (delta : ℕ) (s : Store) (why : InventoryRefusal)
    → increment_booked room_type dates delta s ≡ err why
    → (r : InventoryRow) × In r (ensure room_type (room_count room_type s.rooms) dates s.inventory)
      × (in_dates room_type dates r ≡ true)
      × (r.total_rooms < r.booked_rooms + r.blocked_rooms + delta)
unfolding increment_booked
increment_booked-refuses room_type [] delta s why e = cc
increment_booked-refuses room_type (d ∷ ds) delta s why e =
    let dates = d ∷ ds in
    let rows = ensure room_type (room_count room_type s.rooms) dates s.inventory in
    let mine = select (in_dates room_type dates) rows in
    let (r, q) = refuse_full-err (find (lacks delta) mine) rows _ why (λ x. (_, refl)) e in
    let (i, inside) =
      select-In (in_dates room_type dates) rows r (In-find (lacks delta) mine r q) in
    (r, i, inside, ground (arith, find-some (lacks delta) mine r q))
