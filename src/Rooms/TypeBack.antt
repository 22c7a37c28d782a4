-- ===== src/Rooms/TypeBack.antt =====
-- A category comes back from the archive with a room of it as it was
-- (backend/src/modules/rooms/rooms.service.ts, `restore`, and
-- backend/src/modules/room-types/room-types.service.ts, `remove`).
use kars_hotel.Base.{
  ℕ, zero, suc, ◌/◌, ◌%◌, ◌<◌, ◌≡◌, refl, sym, ap, ◌∙◌, subst, inl, inr, Bool, true, false, Option,
  none, some, List, [], ◌∷◌, ◌++◌, ◌==◌, ==_iff, ltb, every, arith, length, find, find-map,
  find-some, Bool-cases, if◌then◌else◌,
}
use kars_hotel.Base.Text.{Text}
use kars_hotel.Base.Result.{ok, ok-injective, refuse_if-then, or_refuse-then}
use kars_hotel.Rooms.Fund.{
  Room, RoomType, Fund, room_type_not_found, type_has_rooms, find_type, find_room,
}
use kars_hotel.Rooms.Service.{
  original_code, is_tail, is_tail_char, live_code, restored_type, restore_type, restore,
  restore_row,
}
use kars_hotel.Rooms.Types.{
  digit, base36, base36_fuel, archived_code, put_off, rooms_of_type, put_off_type, remove_row,
  remove_type,
}

digit-is_tail_char : (d : ℕ) → d < 36 → is_tail_char (digit d) ≡ true
digit-is_tail_char d l = ground arith

every-append :
    (p : ℕ → Bool) (xs ys : Text)
    → every p xs ≡ true
    → every p ys ≡ true
    → every p (xs ++ ys) ≡ true
every-append p [] ys a b = b
every-append p (x ∷ xs) ys a b = ground (arith, every-append p xs ys)

tail_digits : (fuel n : ℕ) → every is_tail_char (base36_fuel fuel n) ≡ true
unfolding base36_fuel
tail_digits zero n = refl
tail_digits (suc fuel) n = elim (Bool-cases (ltb n 36)) [
  | inl y ↦ rw y (ground (arith, digit-is_tail_char n (ground arith)))
  | inr m ↦ rw m (
      every-append is_tail_char (base36_fuel fuel (n / 36)) (digit (n % 36) ∷ [])
        (tail_digits fuel (n / 36)) (rw (digit-is_tail_char (n % 36) (omega arith)) refl))
]

base36-is_tail : (n : ℕ) → is_tail (base36 n) ≡ true
unfolding base36 base36_fuel
base36-is_tail n = elim (Bool-cases (ltb n 36)) [
  | inl y ↦ rw y (rw (digit-is_tail_char n (ground arith)) refl)
  | inr m ↦ rw m (
      is_tail_of (base36_fuel n (n / 36)) (digit (n % 36)) (
        every-append is_tail_char (base36_fuel n (n / 36)) (digit (n % 36) ∷ [])
          (tail_digits n (n / 36)) (rw (digit-is_tail_char (n % 36) (omega arith)) refl)))
]
  where
    is_tail_of :
        (xs : Text) (x : ℕ)
        → every is_tail_char (xs ++ x ∷ []) ≡ true
        → is_tail (xs ++ x ∷ []) ≡ true
    is_tail_of [] x e = e
    is_tail_of (y ∷ xs) x e = e

not_tail : (cs tail : Text) → is_tail (cs ++ b'~' ∷ tail) ≡ false
not_tail cs tail = elim (Bool-cases (is_tail (cs ++ b'~' ∷ tail))) [
  | inr n ↦ n
  | inl y ↦ absurd (broken cs (of_tail cs y))
]
  where
    of_tail :
        (cs : Text)
        → is_tail (cs ++ b'~' ∷ tail) ≡ true
        → every is_tail_char (cs ++ b'~' ∷ tail) ≡ true
    of_tail [] e = e
    of_tail (c ∷ cs) e = e

    broken : (cs : Text) → every is_tail_char (cs ++ b'~' ∷ tail) ≡ true → ⊥
    broken [] e = cc
    broken (c ∷ cs) e = broken cs (ground arith)

-- The archive's code gives the old one back, whatever it was.
pub original_code-archived_code :
    (now : ℕ) (code : Text) → original_code (archived_code now code) ≡ code
unfolding original_code
original_code-archived_code now [] = rw (base36-is_tail now) refl
original_code-archived_code now (c ∷ cs) =
    rw (not_tail cs (base36 now)) (ground (arith, original_code-archived_code now cs))

as_before :
    (types : List RoomType) (now : ℕ) (actor : Option ℕ) (t : RoomType)
    → t.is_active ≡ true
    → t.archived_at ≡ none
    → t.archived_by ≡ none
    → find (live_code t.code) types ≡ none
    → restored_type types (put_off now actor t) ≡ t
as_before types now actor t on here nobody free =
    let back = original_code-archived_code now t.code in
    let unused : find (live_code (original_code (archived_code now t.code))) types ≡ none =
      rw back free in
    rw unused (rw back (cc))

-- A category that goes to the archive and comes back with an archived room of it is as before, its
-- code included, if it was in use and no other category in use has its code by then.
pub restore-remove_type :
    (id room_id now at : ℕ) (actor : Option ℕ) (f f1 : Fund) (t : RoomType) (r : Room)
    → find_type id f.room_types ≡ some t
    → t.is_active ≡ true
    → t.archived_at ≡ none
    → t.archived_by ≡ none
    → find_room room_id f.rooms ≡ some r
    → r.room_type_id ≡ id
    → r.archived_at ≡ some at
    → remove_type id now actor f ≡ ok f1
    → find (live_code t.code) f1.room_types ≡ none
    → (f2 : Fund) × (restore room_id f1 ≡ ok f2) × (find_type id f2.room_types ≡ some t)
unfolding remove_type restore
restore-remove_type id room_id now at actor f f1 t r found on here nobody room_found of_type away
      removed free =
    let (t', found', rest) =
      or_refuse-then (find_type id f.room_types) room_type_not_found _ removed in
    let same : t' ≡ t = cc (found, found') in
    let n = length (rooms_of_type id f.rooms) in
    let (empty, done) = refuse_if-then (ltb 0 n) (type_has_rooms n) _ (
      subst (λ o. remove_row id now actor o f ≡ ok f1)
        (ap (λ (x : RoomType). x.archived_at) same ∙ here) rest) in
    let left = ok-injective _ _ done in
    let types : f1.room_types ≡ put_off_type id now actor f.room_types =
      ap (λ (g : Fund). g.room_types) (sym left) in
    let still : find_room room_id f1.rooms ≡ some r =
      ap (λ (g : Fund). find_room room_id g.rooms) (sym left) ∙ room_found in
    let gone : find_type id f1.room_types ≡ some (put_off now actor t) =
      ap (find_type id) types ∙ put_off_found in
    (
      restore_row room_id r (some at) f1,
      rw still (ap (λ o. ok (restore_row room_id r o f1)) away),
      ap (λ o. find_type id (restore_type o f1.room_types))
            (ap (λ k. find_type k f1.room_types) of_type ∙ gone)
          ∙ find-map (λ (x : RoomType). x.id == id) (back f1.room_types) (back-id f1.room_types)
              f1.room_types (put_off now actor t) gone
          ∙ ap some
              (back-own f1.room_types ∙ as_before f1.room_types now actor t on here nobody free),
    )
  where
    mine : (t.id == id) ≡ true
    mine = find-some (λ (x : RoomType). x.id == id) f.room_types t found

    put_off_found :
        find_type id (put_off_type id now actor f.room_types) ≡ some (put_off now actor t)
    put_off_found =
        find-map (λ (x : RoomType). x.id == id) (λ x. if x.id == id then put_off now actor x else x)
          (λ x. elim (Bool-cases (x.id == id)) [ inl y ↦ rw y y | inr n ↦ rw n n ]) f.room_types t
          found
        ∙ rw mine refl

    back : List RoomType → RoomType → RoomType
    back types x = if x.id == t.id then restored_type types x else x

    back-id : (types : List RoomType) (x : RoomType) → ((back types x).id == id) ≡ (x.id == id)
    back-id types x = elim (Bool-cases (x.id == t.id)) [ inl y ↦ rw y refl | inr n ↦ rw n refl ]

    back-own :
        (types : List RoomType)
        → back types (put_off now actor t) ≡ restored_type types (put_off now actor t)
    back-own types = rw ((==_iff t.id t.id).1 refl) refl
