-- ===== src/Housekeeping/Tasks.antt =====
-- What the cleaning tasks promise (backend/src/modules/housekeeping/housekeeping.service.ts).
use kars_hotel.Base.{
  ℕ, ◌≡◌, refl, sym, ap, subst, ◌∙◌, inl, inr, Bool, true, Option, none, some, List, [], ◌∷◌, ◌++◌,
  ◌==◌, arith, find, In, Bool-cases,
}
use kars_hotel.Base.Result.{ok, or_refuse-then, ok-injective}
use kars_hotel.Hotel.{
  Hotel, HkTask, Room, RoomStatus, clean, done, cleaning_task, pending, task_not_found,
  set_room_status,
}
use kars_hotel.Housekeeping.{
  open_cleaning, add_cleaning, auto_create_on_checkout, find_task, update_task, complete_task,
}

-- The hotel has an unfinished cleaning of this reservation.
abbrev pub HasCleaning : ℕ → Hotel → Type 0
HasCleaning id h = (t : HkTask) × (find (open_cleaning id) h.tasks ≡ some t)

find-append_new :
    {A : Type 0} (p : A → Bool) (xs : List A) (a : A)
    → p a ≡ true
    → find p xs ≡ none
    → find p (xs ++ a ∷ []) ≡ some a
find-append_new p [] a q h = ground arith
find-append_new p (x ∷ xs) a q h = ground (arith, find-append_new p xs a q)

pub add_cleaning-HasCleaning :
    (room id : ℕ) (h : Hotel) (o : Option HkTask)
    → find (open_cleaning id) h.tasks ≡ o
    → HasCleaning id (add_cleaning room id h o)
unfolding open_cleaning
add_cleaning-HasCleaning room id h none e =
    (cleaning, find-append_new (open_cleaning id) h.tasks cleaning (ground arith) e)
  where
    cleaning : HkTask
    cleaning = record {
      id = h.next_id;
      room_id = room;
      type = cleaning_task;
      status = pending;
      assignee_id = none;
      notes = none;
      created_from = some id;
      completed_at = none;
    }
add_cleaning-HasCleaning room id h (some t) e = (t, e)

-- A second check-out of one reservation makes no second cleaning, in whatever room, while the first
-- is not finished.
pub auto_create_on_checkout_once :
    (room again id : ℕ) (h : Hotel)
    → auto_create_on_checkout again id (auto_create_on_checkout room id h)
      ≡ auto_create_on_checkout room id h
unfolding auto_create_on_checkout
auto_create_on_checkout_once room again id h =
    let h₁ = add_cleaning room id h (find (open_cleaning id) h.tasks) in
    let (t, e) = add_cleaning-HasCleaning room id h (find (open_cleaning id) h.tasks) refl in
    ap (add_cleaning again id h₁) e

find_task-update_self :
    (id : ℕ) (f : HkTask → HkTask) (ts : List HkTask) (t : HkTask)
    → (f t).id ≡ t.id
    → find_task id ts ≡ some t
    → find_task id (update_task id f ts) ≡ some (f t)
find_task-update_self id f [] t same h = cc
find_task-update_self id f (x ∷ ts) t same h = ground (arith, find_task-update_self id f ts t same)

pub set_room_status-all :
    (id : ℕ) (s : RoomStatus) (rs : List Room) (r : Room)
    → In r (set_room_status id s rs)
    → r.id ≡ id
    → r.status ≡ s
set_room_status-all id s [] r i q = absurd i
set_room_status-all id s (x ∷ rs) r (inl e) q = elim (Bool-cases (x.id == id)) [
  | inl y ↦ ground arith
  | inr n ↦ ground arith
]
set_room_status-all id s (x ∷ rs) r (inr i) q = set_room_status-all id s rs r i q

-- A completed task is done, at this moment, and its room is clean.
pub complete_task-cleans :
    (id now : ℕ) (h h' : Hotel) (t : HkTask)
    → find_task id h.tasks ≡ some t
    → complete_task id now h ≡ ok h'
    → (find_task id h'.tasks ≡ some (record t { status = done; completed_at = some now }))
      × ((r : Room) → In r h'.rooms → r.id ≡ t.room_id → r.status ≡ clean)
unfolding complete_task
complete_task-cleans id now h h' t found e =
    let f = λ (x : HkTask). record x { status = done; completed_at = some now } in
    let (u, there, q) = or_refuse-then (find_task id h.tasks) task_not_found _ e in
    let out = ok-injective _ h' q in
    let same : u ≡ t = some-inj (sym there ∙ found) in
    (
      ap (λ (x : Hotel). find_task id x.tasks) (sym out)
          ∙ find_task-update_self id f h.tasks t refl found,
      λ r i room.
          set_room_status-all u.room_id clean h.rooms r
            (subst (In r) (ap (λ (x : Hotel). x.rooms) (sym out)) i)
            (room ∙ ap (λ (x : HkTask). x.room_id) (sym same)),
    )
  where
    some-inj : {a b : HkTask} → some a ≡ some b → a ≡ b
    some-inj q = cc
