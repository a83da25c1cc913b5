-- ===== src/Session/Downstream/Tasks.antt =====
-- core/src/session/downstream.rs: the tasks of a response, one at a time or many at once.
use glaive.Prelude.{
  ℕ, Option, none, some, Bool, true, false, List, [], ◌∷◌, ◌++◌, Outcome, ok, err, panic, IoError,
  then_run, ◌==◌, length, if◌then◌else◌,
}
use glaive.Session.Offset.{Bytes}
use glaive.Session.Task.{Task}
use glaive.Session.Platform.{Platform}
use glaive.Session.Downstream.{Downstream}
use glaive.Session.Downstream.Responses.{
  Run, write_response_headers, write_response_body, vectored_write_response_body,
  finish_writing_response_body,
}

module _ (net : Platform) (fuel : ℕ) where
  abbrev pub wrote_last : Bool → Downstream net → Unit {0} → Run net Bool
  wrote_last last d _ = some (d, ok last)

  abbrev pub body_last : Bool → Downstream net → Option ℕ → Run net Bool
  body_last last d _ = some (d, ok last)

  unfoldable pub write_task : Downstream net → Task net.http → Run net Bool
  unfolding write_response_headers write_response_body
  write_task d (Task.header h last) =
      then_run (some (write_response_headers net d h)) (wrote_last last)
  write_task d (Task.body none last) = some (d, ok last)
  write_task d (Task.body (some bs) last) =
      let writes = then_run (write_response_body net fuel d bs) (body_last last) in
      if length bs == 0 then some (d, ok last) else writes
  write_task d (Task.trailer _) = some (d, ok true)
  write_task d Task.done = some (d, ok true)
  write_task d (Task.failed e) = some (d, err e)

  abbrev pub finished_last : Downstream net → Option ℕ → Run net Bool
  finished_last d _ = some (d, ok true)

  -- The end of the stream, if the task was the last.
  abbrev pub end_if : Downstream net → Bool → Run net Bool
  end_if d false = some (d, ok false)
  end_if d true = then_run (some (finish_writing_response_body net d)) finished_last

  unfoldable pub write_response_to_downstream : Downstream net → Task net.http → Run net Bool
  unfolding write_task finish_writing_response_body
  write_response_to_downstream d task = then_run (write_task d task) end_if

  abbrev pub flushed_error :
      IoError → Downstream net → net.out.Sink × Outcome (Unit {0}) → Run net Bool
  flushed_error e d (s, ok _) = some (record d { sink = s }, err e)
  flushed_error e d (s, err x) = some (record d { sink = s }, err x)
  flushed_error e d (s, panic) = some (record d { sink = s }, panic)

  abbrev pub put_body : Downstream net → Bytes → Downstream net
  put_body d bs = record d { write_body_vec_buffer = d.write_body_vec_buffer ++ bs }

  -- The loop over the tasks: bodies are collected, and each task decides anew on the end.
  unfoldable pub collect_tasks : Downstream net → List (Task net.http) → Bool → Run net Bool
  unfolding write_response_headers vectored_write_response_body
  collect_tasks d [] last = some (d, ok last)
  collect_tasks d (Task.header h last' ∷ tasks) last =
      then_run (some (write_response_headers net d h)) λ d' _. collect_tasks d' tasks last'
  collect_tasks d (Task.body none last' ∷ tasks) last = collect_tasks d tasks last'
  collect_tasks d (Task.body (some bs) last' ∷ tasks) last =
      collect_tasks (if length bs == 0 then d else put_body d bs) tasks last'
  collect_tasks d (Task.trailer _ ∷ tasks) last = collect_tasks d tasks true
  collect_tasks d (Task.done ∷ tasks) last = collect_tasks d tasks true
  collect_tasks d (Task.failed e ∷ tasks) last =
      then_run (vectored_write_response_body net fuel d)
        λ d' _. flushed_error e d' (net.out.flush d'.sink)

  unfoldable pub vectored_write_response_to_downstream :
      Downstream net → List (Task net.http) → Run net Bool
  unfolding collect_tasks vectored_write_response_body finish_writing_response_body
  vectored_write_response_to_downstream d tasks =
      then_run (collect_tasks d tasks false)
        λ d' last. then_run (vectored_write_response_body net fuel d') λ d'' _. end_if d'' last

  unfoldable pub write_downstream_response : Downstream net → List (Task net.http) → Run net Bool
  unfolding write_response_to_downstream vectored_write_response_to_downstream
  write_downstream_response d [] = some (d, ok true)
  write_downstream_response d (task ∷ []) = write_response_to_downstream d task
  write_downstream_response d (task ∷ (task' ∷ tasks)) =
      vectored_write_response_to_downstream d (task ∷ (task' ∷ tasks))
