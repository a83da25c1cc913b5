-- ===== src/Session/Downstream/Singly.antt =====
-- core/src/session/downstream.rs: the bodies of many tasks, written one by one.
use glaive.Prelude.{
  ℕ, ◌-◌, ◌≡◌, refl, sym, ap, subst, ◌∙◌, none, some, Bool, true, false, List, [], ◌∷◌, ◌++◌,
  Outcome, ok, err, panic, premature_body, then_run, arith, Bool-cases, inl, inr, ◌==◌, ltb, length,
  append-nil, append_assoc, if◌then◌else◌, take-nil, eq-nil_of_length,
}
use mathlib.Core.List.{flatten}
use glaive.Session.Offset.{Bytes}
use glaive.Session.Writer.{WriteState, content_length, completed}
use glaive.Session.Writer.Writes.{finish}
use glaive.Session.Writer.Send.{IsWritable}
use glaive.Session.Downstream.Pieces.{
  let_out, moved, Steady, counted, unbounded, moved-append, moved-nil, let_out-append, Steady-Wrote,
}
use glaive.Session.Task.{Task}
use glaive.Session.Platform.{Platform}
use glaive.Session.Downstream.{Downstream}
use glaive.Session.Downstream.Requests.{force_close_request_body_reader}
use glaive.Session.Downstream.Responses.{Run, finish_writing_response_body}
use glaive.Session.Downstream.Tasks.{write_task, write_response_to_downstream, end_if}

-- How the end of a body comes out in a mode, where the body does end.
abbrev pub ending : WriteState → Bool → Outcome Bool
ending ws false = ok false
ending (content_length total sent) true = if ltb sent total then err premature_body else ok true
ending ws true = ok true

module _ (net : Platform) (fuel : ℕ) where
  open net use {out, bufs, chain}
  open out use {written, write_all, flush, write_all_writes, flush_keeps}

  -- The tasks of one batch, one at a time, until one fails; and whether the last was an end.
  unfoldable pub write_singly : Downstream net → List (Task net.http) → Bool → Run net Bool
  write_singly d [] last = some (d, ok last)
  write_singly d (task ∷ tasks) last =
      then_run (write_response_to_downstream net fuel d task)
        λ d' last'. write_singly d' tasks last'

  -- Pieces of a body, of which the final one may end it.
  abbrev pub body_tasks : List Bytes → Bytes → Bool → List (Task net.http)
  body_tasks [] final last = Task.body (some final) last ∷ []
  body_tasks (bs ∷ pieces) final last = Task.body (some bs) false ∷ body_tasks pieces final last

  run_unit :
      (r : Run net Bool) → then_run r (λ (d : Downstream net) (last : Bool). some (d, ok last)) ≡ r
  run_unit none = refl
  run_unit (some (d, ok last)) = refl
  run_unit (some (d, err e)) = refl
  run_unit (some (d, panic)) = refl

  module _ (writable : IsWritable out bufs chain) where
    -- What is so once a body has gone out.
    pub record Put (d : Downstream net) (ws : WriteState) (body : Bytes) (d' : Downstream net)
        : Type 0 where
      pub wire : written d'.sink ≡ written d.sink ++ let_out ws body
      pub state : d'.body_writer.write_state ≡ moved ws body
      pub steady : Steady (moved ws body)

    let_out-nil : (ws : WriteState) → Steady ws → let_out ws [] ≡ []
    let_out-nil ws (unbounded n small) = refl
    let_out-nil ws (counted total sent le small) = take-nil (total - sent)

    pub put_nothing :
        (d : Downstream net) (ws : WriteState) (body : Bytes)
        → d.body_writer.write_state ≡ ws
        → Steady ws
        → length body ≡ 0
        → Put d ws body d
    put_nothing d ws body st steady e = rw (eq-nil_of_length body e) (record {
      wire =
          sym (append-nil (written d.sink))
          ∙ ap (◌++◌ (written d.sink)) (sym (let_out-nil ws steady));
      state = st ∙ moved-nil ws steady;
      steady = subst Steady (moved-nil ws steady) steady;
    })

    -- A body that has gone out behind another.
    Put-then :
        (d d1 d2 : Downstream net) (ws : WriteState) (a b : Bytes)
        → Steady ws
        → written d1.sink ≡ written d.sink ++ let_out ws a
        → written d2.sink ≡ written d1.sink ++ let_out (moved ws a) b
        → written d2.sink ≡ written d.sink ++ let_out ws (a ++ b)
    Put-then d d1 d2 ws a b steady one two =
        two
        ∙ ap (λ x. x ++ let_out (moved ws a) b) one
        ∙ append_assoc (written d.sink) (let_out ws a) (let_out (moved ws a) b)
        ∙ ap (◌++◌ (written d.sink)) (sym (let_out-append ws a b steady))

    record Puts (d : Downstream net) (ws : WriteState) (body : Bytes) (last : Bool)
        (r : Run net Bool) : Type 0 where
      after : Downstream net
      runs : r ≡ some (after, ok last)
      put : Put d ws body after

    write_task-Puts :
        (d : Downstream net) (ws : WriteState) (bs : Bytes) (last : Bool)
        → d.body_writer.write_state ≡ ws
        → Steady ws
        → Puts d ws bs last (write_task net fuel d (Task.body (some bs) last))
    unfolding write_task
    write_task-Puts d ws bs last st steady = elim (Bool-cases (length bs == 0)) [
      | inl e ↦ record {
        after = d;
        runs = ground (arith, e);
        put = put_nothing d ws bs st steady (ground (arith, e));
      }
      | inr e ↦
          let one = Steady-Wrote net fuel writable d ws bs st steady in
          record {
            after = one.after;
            runs = ground (arith, e, one.writes);
            put = record { wire = one.wire; state = one.next_is; steady = one.steady };
          }
    ]

    -- A run to its end.
    pub record Done (d : Downstream net) (ws : WriteState) (body : Bytes) (last : Bool)
        (r : Run net Bool) : Type 0 where
      pub after : Downstream net
      pub runs : r ≡ some (after, ending (moved ws body) last)
      pub wire : written after.sink ≡ written d.sink ++ let_out ws body

    record Ends (d : Downstream net) (ws : WriteState) (last : Bool) : Type 0 where
      after : Downstream net
      ends : end_if net fuel d last ≡ some (after, ending ws last)
      same_wire : written after.sink ≡ written d.sink

    abbrev ended : Downstream net → ℕ → Downstream net
    ended d count = record d {
      body_writer = record { write_state = completed count };
      sink = (flush d.sink).0;
    }

    closes-sink : (d : Downstream net) → (force_close_request_body_reader net d).sink ≡ d.sink
    unfolding force_close_request_body_reader
    closes-sink d = ground arith

    end_if-Ends :
        (d : Downstream net) (ws : WriteState) (last : Bool)
        → d.body_writer.write_state ≡ ws
        → Steady ws
        → Ends d ws last
    unfolding finish_writing_response_body finish
    end_if-Ends d ws false st steady = record { after = d; ends = refl; same_wire = refl }
    end_if-Ends d ws true st (counted total sent le small) = elim (Bool-cases (ltb sent total)) [
      | inl e ↦ record {
        after = record d { body_writer = record { write_state = completed sent } };
        ends = ground (arith, st, e);
        same_wire = refl;
      }
      | inr e ↦ record {
        after = force_close_request_body_reader net (ended d sent);
        ends = ground (arith, st, e, writable.flushes d.sink);
        same_wire = ap written (closes-sink (ended d sent)) ∙ flush_keeps d.sink;
      }
    ]
    end_if-Ends d ws true st (unbounded n small) = record {
      after = force_close_request_body_reader net (ended d n);
      ends = ground (arith, st, writable.flushes d.sink);
      same_wire = ap written (closes-sink (ended d n)) ∙ flush_keeps d.sink;
    }

    pub Ends-Done :
        (d d1 : Downstream net) (ws : WriteState) (body : Bytes) (last : Bool)
        → Put d ws body d1
        → Done d ws body last (end_if net fuel d1 last)
    Ends-Done d d1 ws body last p =
        let e = end_if-Ends d1 (moved ws body) last p.state p.steady in
        record { after = e.after; runs = e.ends; wire = e.same_wire ∙ p.wire }

    pub single-Done :
        (d : Downstream net) (ws : WriteState) (bs : Bytes) (last : Bool)
        → d.body_writer.write_state ≡ ws
        → Steady ws
        → Done d ws bs last (write_response_to_downstream net fuel d (Task.body (some bs) last))
    unfolding write_response_to_downstream
    single-Done d ws bs last st steady =
        let one = write_task-Puts d ws bs last st steady in
        let done = Ends-Done d one.after ws bs last one.put in
        record { after = done.after; runs = rw one.runs done.runs; wire = done.wire }

    -- A piece that is not the last.
    single_runs :
        (d : Downstream net) (ws : WriteState) (bs : Bytes)
        → d.body_writer.write_state ≡ ws
        → Steady ws
        → Puts d ws bs false (write_response_to_downstream net fuel d (Task.body (some bs) false))
    unfolding write_response_to_downstream
    single_runs d ws bs st steady =
        let one = write_task-Puts d ws bs false st steady in
        record { after = one.after; runs = rw one.runs refl; put = one.put }

    pub write_singly-Done :
        (d : Downstream net) (ws : WriteState) (pieces : List Bytes) (final : Bytes)
        (last before : Bool)
        → d.body_writer.write_state ≡ ws
        → Steady ws
        → Done d ws
            (flatten pieces ++ final)
            last
            (write_singly d (body_tasks pieces final last) before)
    unfolding write_singly flatten
    write_singly-Done d ws [] final last before st steady =
        subst (Done d ws final last)
          (sym (run_unit (write_response_to_downstream net fuel d (Task.body (some final) last))))
          (single-Done d ws final last st steady)
    write_singly-Done d ws (bs ∷ pieces) final last before st steady =
        let one = single_runs d ws bs st steady in
        let rest =
          write_singly-Done one.after (moved ws bs) pieces final last false one.put.state
            one.put.steady in
        let body = flatten pieces ++ final in
        let whole : bs ++ body ≡ (bs ++ flatten pieces) ++ final =
          sym (append_assoc bs (flatten pieces) final) in
        subst (λ b. Done d ws b last (write_singly d (body_tasks (bs ∷ pieces) final last) before))
          whole
          (record {
            after = rest.after;
            runs =
                rw one.runs rest.runs
                ∙ ap (λ x. some (rest.after, ending x last)) (moved-append ws bs body steady);
            wire = Put-then d one.after rest.after ws bs body steady one.put.wire rest.wire;
          })
