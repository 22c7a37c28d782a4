-- ===== src/Inventory/Bulk.antt =====
-- The manual edit of the grid (backend/src/modules/inventory/inventory.service.ts, `bulkUpdate` and
-- `ensure`) and what it leaves alone.
use kars_hotel.Base.{
  ℕ, ◌≡◌, refl, sym, ap, ◌∙◌, Option, none, some, List, [], ◌∷◌, ◌++◌, map, arith, if◌then◌else◌,
}
use kars_hotel.Base.Result.{ok, ok-injective, unit-then}
use kars_hotel.Inventory.{
  InventoryRow, BulkUpdateRow, Store, is_row, find_row, fresh_row, insert_missing, ensure,
  overwrite, upsert, upsert_all, invalidate_cache, bulk_update, known_type, room_count,
}

abbrev booked_in : Option InventoryRow → ℕ
booked_in none = 0
booked_in (some r) = r.booked_rooms

-- How many rooms of a category are booked on a day; a day without a row has none.
pub booked_on : ℕ → ℕ → List InventoryRow → ℕ
booked_on room_type date rows = booked_in (find_row room_type date rows)

append_fresh-booked :
    (room_type date : ℕ) (r : InventoryRow) (rows : List InventoryRow)
    → r.booked_rooms ≡ 0
    → booked_on room_type date (rows ++ r ∷ []) ≡ booked_on room_type date rows
unfolding booked_on
append_fresh-booked room_type date r [] z = ground arith
append_fresh-booked room_type date r (x ∷ rows) z =
    ground (arith, append_fresh-booked room_type date r rows z)

overwrite-booked :
    (room_type date t d : ℕ) (u : BulkUpdateRow) (rows : List InventoryRow)
    → booked_on room_type date (map (λ r. if is_row t d r then overwrite u r else r) rows)
      ≡ booked_on room_type date rows
unfolding booked_on
overwrite-booked room_type date t d u [] = refl
overwrite-booked room_type date t d u (x ∷ rows) =
    ground (arith, overwrite-booked room_type date t d u rows)

upsert-booked :
    (room_type date t count : ℕ) (u : BulkUpdateRow) (o : Option InventoryRow)
    (rows : List InventoryRow)
    → booked_on room_type date (upsert t count u o rows) ≡ booked_on room_type date rows
upsert-booked room_type date t count u none rows = append_fresh-booked room_type date _ rows refl
upsert-booked room_type date t count u (some r) rows =
    overwrite-booked room_type date t u.date u rows

upsert_all-booked :
    (room_type date t count : ℕ) (us : List BulkUpdateRow) (rows : List InventoryRow)
    → booked_on room_type date (upsert_all t count us rows) ≡ booked_on room_type date rows
unfolding upsert_all
upsert_all-booked room_type date t count [] rows = refl
upsert_all-booked room_type date t count (u ∷ us) rows =
    upsert_all-booked room_type date t count us _
    ∙ upsert-booked room_type date t count u (find_row t u.date rows) rows

ensure-booked :
    (room_type date t count : ℕ) (ds : List ℕ) (rows : List InventoryRow)
    → booked_on room_type date (ensure t count ds rows) ≡ booked_on room_type date rows
unfolding ensure
ensure-booked room_type date t count [] rows = refl
ensure-booked room_type date t count (d ∷ ds) rows =
    ensure-booked room_type date t count ds _ ∙ inserted (find_row t d rows)
  where
    inserted :
        (o : Option InventoryRow)
        → booked_on room_type date (insert_missing (fresh_row t count d) o rows)
          ≡ booked_on room_type date rows
    inserted none = append_fresh-booked room_type date _ rows refl
    inserted (some r) = refl

invalidate_cache-rows :
    (t : ℕ) (ds : List ℕ) (s : Store) → (invalidate_cache t ds s).inventory ≡ s.inventory
unfolding invalidate_cache
invalidate_cache-rows t [] s = refl
invalidate_cache-rows t (d ∷ ds) s = refl

-- Editing the grid never changes how many rooms are booked, of any category on any day.
pub bulk_update-booked :
    (room_type date t : ℕ) (us : List BulkUpdateRow) (s s' : Store) (n : ℕ)
    → bulk_update t us s ≡ ok (n, s')
    → booked_on room_type date s'.inventory ≡ booked_on room_type date s.inventory
unfolding bulk_update
bulk_update-booked room_type date t us s s' n e =
    let (k, q) = unit-then (known_type t s) _ e in
    let rows = upsert_all t (room_count t s.rooms) us s.inventory in
    ap (λ (x : ℕ × Store). booked_on room_type date x.1.inventory) (sym (ok-injective _ (n, s') q))
    ∙ ap (booked_on room_type date)
        (invalidate_cache-rows t (map (λ u. u.date) us) (record s { inventory = rows }))
    ∙ upsert_all-booked room_type date t (room_count t s.rooms) us s.inventory
