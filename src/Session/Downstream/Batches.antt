-- ===== src/Session/Downstream/Batches.antt =====
-- core/src/session/downstream.rs: the bodies of many tasks, written at once.
use glaive.Prelude.{
  ℕ, ◌≡◌, refl, sym, ap, subst, ◌∙◌, Option, none, some, Bool, true, false, List, [], ◌∷◌, ◌++◌, ok,
  arith, Bool-cases, inl, inr, ◌==◌, length, append-nil, append_assoc, if◌then◌else◌,
  eq-nil_of_length,
}
use mathlib.Core.List.{flatten}
use glaive.Session.Offset.{Bytes}
use glaive.Session.Writer.{WriteState}
use glaive.Session.Writer.Send.{IsWritable}
use glaive.Session.Downstream.Pieces.{let_out, moved, Steady, Steady-Wrote}
use glaive.Session.Downstream.Singly.{
  ending, write_singly, body_tasks, Put, Done, put_nothing, Ends-Done, single-Done,
  write_singly-Done,
}
use glaive.Session.Platform.{Platform}
use glaive.Session.Downstream.{Downstream}
use glaive.Session.Downstream.Responses.{Run, vectored_write_response_body}
use glaive.Session.Downstream.Tasks.{
  collect_tasks, put_body, vectored_write_response_to_downstream, write_downstream_response,
}

module _ (net : Platform) (fuel : ℕ) where
  open net use {out, bufs, chain}
  open out use {written}

  module _ (writable : IsWritable out bufs chain) where
    -- An empty piece that is skipped is as good as one that is put behind the others.
    skips_empty :
        (d : Downstream net) (bs : Bytes) (is_empty : Bool)
        → (length bs == 0) ≡ is_empty
        → (if is_empty then d else put_body net fuel d bs) ≡ put_body net fuel d bs
    skips_empty d bs true e = rw (eq-nil_of_length bs (ground (arith, e))) (
        ap (λ b. record d { write_body_vec_buffer = b }) (sym (append-nil d.write_body_vec_buffer)))
    skips_empty d bs false e = refl

    collects :
        (d : Downstream net) (pieces : List Bytes) (final : Bytes) (last before : Bool)
        → collect_tasks net fuel d (body_tasks net fuel pieces final last) before
          ≡ some (put_body net fuel d (flatten pieces ++ final), ok last)
    unfolding collect_tasks flatten
    collects d [] final last before =
        ap (λ x. some (x, ok last)) (skips_empty d final (length final == 0) refl)
    collects d (bs ∷ pieces) final last before =
        ap (λ x. collect_tasks net fuel x (body_tasks net fuel pieces final last) false)
          (skips_empty d bs (length bs == 0) refl)
        ∙ collects (put_body net fuel d bs) pieces final last false
        ∙ ap (λ b. some (record d { write_body_vec_buffer = b }, ok last))
            (append_assoc d.write_body_vec_buffer bs (flatten pieces ++ final)
              ∙ ap (λ x. d.write_body_vec_buffer ++ x)
                  (sym (append_assoc bs (flatten pieces) final)))

    -- One write of all that was put, or none where that is nothing.
    vectored_writes :
        (d : Downstream net) (ws : WriteState)
        → d.body_writer.write_state ≡ ws
        → Steady ws
        → (after : Downstream net) × ((n : Option ℕ) × ((vectored_write_response_body net fuel d
                ≡ some (after, ok n))
              × Put net fuel writable d ws d.write_body_vec_buffer after))
    unfolding vectored_write_response_body
    vectored_writes d ws st steady = elim (Bool-cases (length d.write_body_vec_buffer == 0)) [
      | inl e ↦ (
        d,
        (
          none,
          (
            ground (arith, e),
            put_nothing net fuel writable d ws d.write_body_vec_buffer st steady
                (ground (arith, e)),
          ),
        ),
      )
      | inr e ↦
          let one = Steady-Wrote net fuel writable d ws d.write_body_vec_buffer st steady in
          (
            record one.after { write_body_vec_buffer = [] },
            (
              one.result,
              (
                ground (arith, e, one.writes),
                record { wire = one.wire; state = one.next_is; steady = one.steady },
              ),
            ),
          )
    ]

    vectored-Done :
        (d : Downstream net) (ws : WriteState) (pieces : List Bytes) (final : Bytes) (last : Bool)
        → d.body_writer.write_state ≡ ws
        → Steady ws
        → d.write_body_vec_buffer ≡ []
        → Done net fuel writable d ws (flatten pieces ++ final) last (
            vectored_write_response_to_downstream net fuel d
              (body_tasks net fuel pieces final last))
    unfolding vectored_write_response_to_downstream
    vectored-Done d ws pieces final last st steady empty =
        let body = flatten pieces ++ final in
        let full = put_body net fuel d body in
        let (after, (n, (writes, put))) = vectored_writes full ws st steady in
        let all : d.write_body_vec_buffer ++ body ≡ body = ap (λ b. b ++ body) empty in
        let put' : Put net fuel writable d ws body after =
          subst (λ b. Put net fuel writable d ws b after) all
            (record { wire = put.wire; state = put.state; steady = put.steady }) in
        let done = Ends-Done net fuel writable d after ws body last put' in
        record {
          after = done.after;
          runs = rw (collects d pieces final last false) (rw writes done.runs);
          wire = done.wire;
        }

    -- One task is written by itself, and more are a batch.
    batch-Done :
        (d : Downstream net) (ws : WriteState) (pieces : List Bytes) (final : Bytes) (last : Bool)
        → d.body_writer.write_state ≡ ws
        → Steady ws
        → d.write_body_vec_buffer ≡ []
        → Done net fuel writable d ws
            (flatten pieces ++ final)
            last
            (write_downstream_response net fuel d (body_tasks net fuel pieces final last))
    unfolding write_downstream_response flatten
    batch-Done d ws [] final last st steady empty =
        single-Done net fuel writable d ws final last st steady
    batch-Done d ws (bs ∷ []) final last st steady empty =
        vectored-Done d ws (bs ∷ []) final last st steady empty
    batch-Done d ws (bs ∷ (p ∷ ps)) final last st steady empty =
        vectored-Done d ws (bs ∷ (p ∷ ps)) final last st steady empty

    -- Two runs that come out in the same way, with the same bytes out, which are those of the body
    -- that the mode lets out.
    pub record SameWire (d : Downstream net) (ws : WriteState) (body : Bytes) (last : Bool)
        (r r' : Run net Bool) : Type 0 where
      pub after : Downstream net
      pub after' : Downstream net
      pub runs : r ≡ some (after, ending (moved ws body) last)
      pub runs' : r' ≡ some (after', ending (moved ws body) last)
      pub wire : written after.sink ≡ written d.sink ++ let_out ws body
      pub same : written after'.sink ≡ written after.sink

    -- Pieces of a body that come as the tasks of one batch, of which only the final one may end it,
    -- on a sink that takes what it is given, in a mode by content length or until the end: what is
    -- collected and written at once puts the same bytes on the wire as the tasks one by one, and
    -- comes out in the same way. The bytes are all the pieces in their order, up to what is left of a
    -- content length; both succeed, unless the body is ended before its content length: then both
    -- are the error of a premature body. The chunked mode, where the two make different chunks, and
    -- batches with a header, an earlier end or a failure are not covered.
    pub write_downstream_response-SameWire :
        (d : Downstream net) (ws : WriteState) (pieces : List Bytes) (final : Bytes) (last : Bool)
        → d.body_writer.write_state ≡ ws
        → Steady ws
        → d.write_body_vec_buffer ≡ []
        → SameWire d ws
            (flatten pieces ++ final)
            last
            (write_singly net fuel d (body_tasks net fuel pieces final last) false)
            (write_downstream_response net fuel d (body_tasks net fuel pieces final last))
    write_downstream_response-SameWire d ws pieces final last st steady empty =
        let one = write_singly-Done net fuel writable d ws pieces final last false st steady in
        let many = batch-Done d ws pieces final last st steady empty in
        record {
          after = one.after;
          after' = many.after;
          runs = one.runs;
          runs' = many.runs;
          wire = one.wire;
          same = many.wire ∙ sym one.wire;
        }
