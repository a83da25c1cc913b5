-- ===== src/Session/Writer/Chunks.antt =====
-- A body in chunks, on the wire and as its reader decodes it.
use glaive.Prelude.{
  ℕ, ◌<◌, ◌≡◌, refl, ◌∙◌, ap, Option, none, some, List, [], ◌∷◌, ◌++◌, map, Outcome, ok, err, panic,
  arith, add_usize, length, append_assoc,
}
use mathlib.Core.List.{flatten}
use glaive.Session.Offset.{Bytes}
use glaive.Session.Streams.{AsyncWrite, Buf}
use glaive.Stream.WriteVec.{Wrote, write_vec_all}
use glaive.Stream.WriteVec.Loop.{Ends, write_vec_all-Ends}
use glaive.Session.Writer.{chunked_encoding, BodyWriter, last_chunk, with_chunked_encoding_write}
use glaive.Session.Writer.Writes.{
  Step, encode_chunk, flushed_chunk, wrote_chunk, write_by_chunked_encoding, write_body, finish,
  finish_chunked_encoding, finished_chunks,
}
use glaive.Session.Writer.Send.{then_send, send}

-- The wire of a body in chunks.
abbrev pub encode : List Bytes → Bytes
unfolding flatten
encode pieces = flatten (map encode_chunk pieces)

module _ (io : AsyncWrite) (bufs : Buf) (chain : Bytes → bufs.Buffer)
    (chain_remaining : (bs : Bytes) → bufs.remaining (chain bs) ≡ bs) where
  open io use {Sink, written, write_all, flush, write_all_writes, flush_keeps}

  -- A run in chunks does not run out of fuel, and when it succeeds the wire has the chunks, in
  -- order, and the last one.
  abbrev pub ChunksSent : Bytes → Sink → Option (Step io) → Type 0
  ChunksSent wire s none = ⊥
  ChunksSent wire s (some (w, s', result)) =
      (n : Option ℕ) → result ≡ ok n → written s' ≡ written s ++ wire

  abbrev pub Enough : ℕ → List Bytes → Type 0
  Enough fuel [] = Unit
  Enough fuel (piece ∷ pieces) = (length (encode_chunk piece) < fuel) × Enough fuel pieces

  abbrev pub StepSent : Bytes → Sink → Option (Step io) → Type 0
  StepSent wire s none = ⊥
  StepSent wire s (some (w, s', result)) =
      (n : Option ℕ)
      → result ≡ ok n
      → (written s' ≡ written s ++ wire) × (k : ℕ) × (w.write_state ≡ chunked_encoding k)

  flushed_chunk-StepSent :
      (w : BodyWriter) (k n : ℕ) (wire : Bytes) (s s' : Sink) (t : Sink × Outcome (Unit {0}))
      → written t.0 ≡ written s ++ wire
      → StepSent wire s (some (flushed_chunk io w k n t))
  flushed_chunk-StepSent w k n wire s s' (s'', ok _) out = λ m h. (out, add_usize k n, refl)
  flushed_chunk-StepSent w k n wire s s' (s'', err e) out = λ m h. cc
  flushed_chunk-StepSent w k n wire s s' (s'', panic) out = λ m h. cc

  wrote_chunk-StepSent :
      (w : BodyWriter) (s : Sink) (k n : ℕ) (piece : Bytes) (t : Wrote io bufs)
      → Ends io bufs s (chain (encode_chunk piece)) t
      → StepSent (encode_chunk piece) s (wrote_chunk io bufs chain w s k n t)
  wrote_chunk-StepSent w s k n piece none h = h
  wrote_chunk-StepSent w s k n piece (some (s', b, ok _)) h =
      flushed_chunk-StepSent w k n (encode_chunk piece) s s' (flush s')
        (flush_keeps s' ∙ (h refl).0 ∙ ap (◌++◌ (written s)) (chain_remaining (encode_chunk piece)))
  wrote_chunk-StepSent w s k n piece (some (s', b, err e)) h = λ m h'. cc
  wrote_chunk-StepSent w s k n piece (some (s', b, panic)) h = λ m h'. cc

  write_body-StepSent :
      (fuel : ℕ) (w : BodyWriter) (s : Sink) (k : ℕ) (piece : Bytes)
      → w.write_state ≡ chunked_encoding k
      → length (encode_chunk piece) < fuel
      → StepSent (encode_chunk piece) s (write_body io bufs chain fuel w s piece)
  unfolding write_body write_by_chunked_encoding
  write_body-StepSent fuel w s k piece st enough =
      let e : write_body io bufs chain fuel w s piece
          ≡ wrote_chunk io bufs chain w s k (length piece)
              (write_vec_all io bufs fuel s (chain (encode_chunk piece))) =
        ground (arith, st) in
      rw e (
        wrote_chunk-StepSent w s k (length piece) piece
          (write_vec_all io bufs fuel s (chain (encode_chunk piece)))
          (write_vec_all-Ends io bufs fuel s (chain (encode_chunk piece))
            (rw (chain_remaining (encode_chunk piece)) enough)))

  ChunksSent-after :
      (first rest : Bytes) (s s' : Sink) (t : Option (Step io))
      → written s' ≡ written s ++ first
      → ChunksSent rest s' t
      → ChunksSent (first ++ rest) s t
  ChunksSent-after first rest s s' none out h = h
  ChunksSent-after first rest s s' (some (w, s'', result)) out h =
      λ n ok_n. h n ok_n ∙ rw out (append_assoc (written s) first rest)

  then_send-ChunksSent :
      (again : BodyWriter → Sink → Option (Step io)) (first rest : Bytes) (s : Sink)
      (t : Option (Step io))
      → StepSent first s t
      → ((w : BodyWriter) (s' : Sink) (k : ℕ)
          → w.write_state ≡ chunked_encoding k
          → ChunksSent rest s' (again w s'))
      → ChunksSent (first ++ rest) s (then_send io bufs chain again t)
  then_send-ChunksSent again first rest s none h more = h
  then_send-ChunksSent again first rest s (some (w, s', ok n)) h more =
      let (out, k, st) = h n refl in
      ChunksSent-after first rest s s' (again w s') out (more w s' k st)
  then_send-ChunksSent again first rest s (some (w, s', err e)) h more = λ n h'. cc
  then_send-ChunksSent again first rest s (some (w, s', panic)) h more = λ n h'. cc

  finished_chunks-ChunksSent :
      (k : ℕ) (s : Sink) (t : Sink × Outcome (Unit {0}))
      → (t.1 ≡ ok tt → written t.0 ≡ written s ++ last_chunk)
      → ChunksSent last_chunk s (some (finished_chunks io k t))
  finished_chunks-ChunksSent k s (s', ok _) out = λ n h. out refl
  finished_chunks-ChunksSent k s (s', err e) out = λ n h. cc
  finished_chunks-ChunksSent k s (s', panic) out = λ n h. cc

  send-ChunksSent :
      (fuel : ℕ) (w : BodyWriter) (s : Sink) (k : ℕ) (pieces : List Bytes)
      → w.write_state ≡ chunked_encoding k
      → Enough fuel pieces
      → ChunksSent (encode pieces ++ last_chunk) s (send io bufs chain fuel w s pieces)
  unfolding send finish finish_chunked_encoding flatten
  send-ChunksSent fuel w s k [] st enough =
      let e : finish io w s ≡ finished_chunks io k (write_all s last_chunk) = ground (arith, st) in
      rw e (finished_chunks-ChunksSent k s (write_all s last_chunk) (write_all_writes s last_chunk))
  send-ChunksSent fuel w s k (piece ∷ pieces) st enough =
      rw (append_assoc (encode_chunk piece) (encode pieces) last_chunk) (
        then_send-ChunksSent (λ w' s'. send io bufs chain fuel w' s' pieces) (encode_chunk piece)
          (encode pieces ++ last_chunk) s (write_body io bufs chain fuel w s piece)
          (write_body-StepSent fuel w s k piece st enough.0)
          λ w' s' j st'. send-ChunksSent fuel w' s' j pieces st' enough.1)

  -- Pieces of a body written in chunks, and the body finished: with fuel for the longest of them the
  -- loops of the vectored writes end, on any sink; and when the run reports success, the sink has
  -- got the chunk of each piece, in order, and the last chunk, and nothing else.
  pub chunked-ChunksSent :
      (fuel : ℕ) (w : BodyWriter) (s : Sink) (pieces : List Bytes)
      → Enough fuel pieces
      → ChunksSent
          (encode pieces ++ last_chunk)
          s
          (send io bufs chain fuel (with_chunked_encoding_write w) s pieces)
  unfolding with_chunked_encoding_write
  chunked-ChunksSent fuel w s pieces enough =
      send-ChunksSent fuel (record { write_state = chunked_encoding 0 }) s 0 pieces refl enough
