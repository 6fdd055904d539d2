-- ===== src/Http/ConnectionExamples.antt =====
-- Runs of a connection (http_session in lib/src/geoff.cpp), on which its theorems are applied.
use geoff.Prelude.{◌≤◌, ◌≡◌, refl, true, false, List, [], ◌∷◌, none, length}
use geoff.Http.Text.{Text, codes}
use geoff.Http.Path.{trimmed, path_cat}
use geoff.Http.Handle.{Response, handle_request, respond, serve, file_path}
use geoff.Http.Samples.{beast, disk, front_page, upgrade, protocol, eq_text}
use geoff.Http.Queue
use geoff.Http.Queue.{limit, push, start_front, is_full, erase_front, start_next}
use geoff.Http.Pipeline
use geoff.Http.Pipeline.{Action, accept, finish, idle, all_accepted, all_finished}
use geoff.Http.Connection.{
  Connection, plain, request, run, create, do_read, on_read, on_write, answer, write_next,
}
use geoff.Http.Connection.Steps.{received, written, complete, dispatch, Step, Run, Serving}
use geoff.Http.Connection.Invariant.{IsConnection, IsServing, Waits}
use geoff.Http.Connection.Quiet.{Ended, Ended-no_read}
use geoff.Http.Connection.Refines.{
  Run-IsConnection, Run-refines, Run-all_finished, Serving-IsServing,
}

abbrev root : Text
root = codes "www"

abbrev page : Response
page = handle_request beast root disk front_page

-- A connection that has read two requests and has begun to write the first response.
abbrev two_read : Connection
two_read = record {
  kind = plain;
  queue = record { items = page ∷ page ∷ []; writing = page ∷ [] };
  handshakes = 0;
  reads = 1;
  shutdowns = 0;
  sent_eof = false;
  released = false;
  log = [];
}

abbrev one_read : Connection
one_read = record two_read { queue = record { items = page ∷ []; writing = page ∷ [] } }

first_step : Step beast protocol root (run plain) (received disk (request front_page)) one_read
unfolding run create do_read complete dispatch on_read answer push start_front is_full eq_text
first_step = record {
  between = record (create plain) { reads = 0 };
  completes = refl;
  handles = refl;
}

second_step : Step beast protocol root one_read (received disk (request front_page)) two_read
unfolding do_read complete dispatch on_read answer push start_front is_full eq_text
second_step = record { between = record one_read { reads = 0 }; completes = refl; handles = refl }

write_step : Step beast protocol root two_read (written none) one_read
unfolding do_read complete dispatch on_write write_next Queue.on_write erase_front start_next
    start_front is_full handle_request respond serve file_path path_cat trimmed
write_step = record {
  between = record two_read { queue = record { items = page ∷ page ∷ []; writing = [] } };
  completes = refl;
  handles = refl;
}

one_request : Run beast protocol root plain (accept page ∷ []) one_read
unfolding eq_text
one_request = Run.later (received disk (request front_page)) Run.start first_step

sample-Run : Run beast protocol root plain (accept page ∷ accept page ∷ finish page ∷ []) one_read
unfolding eq_text
sample-Run =
    Run.later (written none)
      (Run.later (received disk (request front_page)) one_request second_step) write_step

Run-IsConnection_example : IsConnection one_read
Run-IsConnection_example = Run-IsConnection beast protocol root sample-Run

Run-refines_example :
    (q : List Response) × Pipeline.Run (accept page ∷ accept page ∷ finish page ∷ []) q
    × Waits one_read q
Run-refines_example = Run-refines beast protocol root sample-Run

Run-all_finished_example : (q : List Response) × (page ∷ page ∷ [] ≡ page ∷ q) × (length q ≤ limit)
Run-all_finished_example = Run-all_finished beast protocol root sample-Run

serving : Serving beast protocol root plain one_read
unfolding eq_text
serving = Serving.later (received disk (request front_page)) Serving.start first_step refl

Serving-IsServing_example : IsServing one_read
Serving-IsServing_example = Serving-IsServing beast protocol root serving

-- An upgrade that is pipelined behind another request gives the stream away while the response to
-- that request is still being written to it.
abbrev given_away : Connection
given_away = record one_read { reads = 0; released = true }

upgrade_step : Step beast protocol root one_read (received disk (request upgrade)) given_away
unfolding complete dispatch on_read eq_text
upgrade_step = record { between = record one_read { reads = 0 }; completes = refl; handles = refl }

-- The response is written, and no read begins.
last_write_step :
    Step beast protocol root given_away
      (written none)
      (record given_away { queue = record { items = []; writing = [] } })
unfolding do_read complete dispatch on_write write_next Queue.on_write erase_front start_next
    start_front is_full handle_request respond serve file_path path_cat trimmed
last_write_step = record {
  between = record given_away { queue = record { items = page ∷ []; writing = [] } };
  completes = refl;
  handles = refl;
}

after_upgrade :
    Ended beast protocol root plain
      (record given_away { queue = record { items = []; writing = [] } })
unfolding eq_text
after_upgrade =
    Ended.later (written none)
      (Ended.read_last disk (request upgrade) one_request upgrade_step refl) last_write_step

Ended-no_read_example : (given_away.handshakes ≡ 0) × (given_away.reads ≡ 0)
Ended-no_read_example = Ended-no_read beast protocol root after_upgrade
