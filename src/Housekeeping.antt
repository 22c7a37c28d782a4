-- ===== src/Housekeeping.antt =====
-- Cleaning tasks: backend/src/modules/housekeeping/housekeeping.service.ts.
use kars_hotel.Base.{
  ℕ, suc, Bool, true, false, Option, none, some, List, [], ◌∷◌, ◌++◌, map, ◌==◌, ◌&&◌, not,
  if◌then◌else◌, find, select,
}
use kars_hotel.Base.Text.{Text}
use kars_hotel.Base.Result.{Result, ok, ◌>>=◌, or_refuse}
use kars_hotel.Hotel.{
  Hotel, HkTask, TaskType, TaskStatus, cleaning_task, pending, in_progress, done, clean, Refusal,
  task_not_found, set_room_status,
}
pub mod Tasks
mod Tests

pub record CreateTask : Type 0 where
  pub room_id : ℕ
  pub type : Option TaskType
  pub assignee_id : Option ℕ
  pub notes : Option Text
  pub reservation_id : Option ℕ

abbrev or_cleaning : Option TaskType → TaskType
or_cleaning none = cleaning_task
or_cleaning (some t) = t

-- `listTasks`, newest first; rooms and names are joined by the database.
abbrev is_status : TaskStatus → TaskStatus → Bool
is_status pending pending = true
is_status in_progress in_progress = true
is_status done done = true
is_status TaskStatus.task_inspected TaskStatus.task_inspected = true
is_status _ _ = false

abbrev is_cleaning : TaskType → Bool
is_cleaning cleaning_task = true
is_cleaning _ = false

unfoldable pub create_task : CreateTask → Hotel → HkTask × Hotel
create_task dto h =
    let task : HkTask = record {
      id = h.next_id;
      room_id = dto.room_id;
      type = or_cleaning dto.type;
      status = pending;
      assignee_id = dto.assignee_id;
      notes = dto.notes;
      created_from = dto.reservation_id;
      completed_at = none;
    } in
    (task, record h { tasks = h.tasks ++ task ∷ []; next_id = suc h.next_id })

abbrev came_from : ℕ → Option ℕ → Bool
came_from id none = false
came_from id (some r) = r == id

-- An unfinished cleaning that this reservation's check-out made.
unfoldable pub open_cleaning : ℕ → HkTask → Bool
open_cleaning reservation_id t =
    came_from reservation_id t.created_from && is_cleaning t.type && not (is_status t.status done)

abbrev pub add_cleaning : ℕ → ℕ → Hotel → Option HkTask → Hotel
add_cleaning room_id reservation_id h (some t) = h
add_cleaning room_id reservation_id h none = record h {
  tasks =
      h.tasks
      ++ record {
        id = h.next_id;
        room_id = room_id;
        type = cleaning_task;
        status = pending;
        assignee_id = none;
        notes = none;
        created_from = some reservation_id;
        completed_at = none;
      }
        ∷ [];
  next_id = suc h.next_id;
}

unfoldable pub auto_create_on_checkout : ℕ → ℕ → Hotel → Hotel
auto_create_on_checkout room_id reservation_id h =
    add_cleaning room_id reservation_id h (find (open_cleaning reservation_id) h.tasks)

abbrev start_if_pending : TaskStatus → TaskStatus
start_if_pending pending = in_progress
start_if_pending s = s

abbrev pub find_task : ℕ → List HkTask → Option HkTask
find_task id = find (λ t. t.id == id)

abbrev pub update_task : ℕ → (HkTask → HkTask) → List HkTask → List HkTask
update_task id f = map (λ t. if t.id == id then f t else t)

unfoldable pub assign_task : ℕ → ℕ → Hotel → Result Refusal Hotel
assign_task task_id assignee h = do
  found ← or_refuse (find_task task_id h.tasks) task_not_found
  ok (record h {
    tasks =
        update_task task_id
          (λ t. record t { assignee_id = some assignee; status = start_if_pending t.status })
          h.tasks;
  })

unfoldable pub complete_task : ℕ → ℕ → Hotel → Result Refusal Hotel
complete_task task_id now h = do
  found ← or_refuse (find_task task_id h.tasks) task_not_found
  ok (record h {
    tasks = update_task task_id (λ t. record t { status = done; completed_at = some now }) h.tasks;
    rooms = set_room_status found.room_id clean h.rooms;
  })

-- `listTasks` with a status.
unfoldable pub list_tasks : Option TaskStatus → Hotel → List HkTask
list_tasks none h = h.tasks
list_tasks (some s) h = select (λ t. is_status s t.status) h.tasks
