-- ===== src/Housekeeping/Tests.antt =====
-- The theorems on cleaning tasks at a concrete hotel
-- (backend/src/modules/housekeeping/housekeeping.service.ts).
use kars_hotel.Base.{◌≡◌, refl, false, none, some, [], ◌∷◌}
use kars_hotel.Hotel.{Hotel, HkTask, clean, done, cleaning_task, pending, set_room_status}
use kars_hotel.Base.Result.{ok}
use kars_hotel.Housekeeping.{complete_task}
use kars_hotel.Hotel.Samples.{hotel_of}

abbrev cleaning : HkTask
cleaning = record {
  id = 50;
  room_id = 101;
  type = cleaning_task;
  status = pending;
  assignee_id = none;
  notes = none;
  created_from = some 1;
  completed_at = none;
}

abbrev cleaned : HkTask
cleaned = record cleaning { status = done; completed_at = some 9 }

abbrev waiting : Hotel
waiting = record (hotel_of false []) { tasks = cleaning ∷ [] }

abbrev tidy : Hotel
tidy = record waiting { tasks = cleaned ∷ []; rooms = set_room_status 101 clean waiting.rooms }

finished : complete_task 50 9 waiting ≡ ok tidy
unfolding complete_task
finished = refl
