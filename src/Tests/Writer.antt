-- ===== src/Tests/Writer.antt =====
-- The body writer of core/src/session/writer.rs on a concrete sink.
use glaive.Prelude.{◌≡◌, refl, some, List, [], ◌∷◌, ◌++◌, ok, arith}
use mathlib.Core.List.{flatten}
use glaive.Session.Offset.{Bytes}
use glaive.Stream.WriteVec.{poll_write_vec, offer, write_vec_all}
use glaive.Stream.WriteVec.Loop.{Ends, write_vec_all-Ends}
use glaive.Session.Writer
use glaive.Session.Writer.{
  BodyWriter, last_chunk, with_content_length_write, with_chunked_encoding_write,
}
use glaive.Session.Writer.Hex.{hex}
use glaive.Session.Writer.Writes.{
  encode_chunk, write_by_content_length, write_by_chunked_encoding, write_body, finish,
  finish_content_length, finish_chunked_encoding,
}
use glaive.Session.Writer.Send.{send, IsWritable, LengthSent, content_length-LengthSent}
use glaive.Session.Writer.Chunks.{encode, ChunksSent, chunked-ChunksSent}
use glaive.Session.Writer.Decode.{decode, decode-encode, decode-encode_empty}
use glaive.Tests.Samples.{codes, tape, flat}

-- All that a run of the writer computes with.
abbrev program : Unit {0}
unfolding hex encode_chunk offer poll_write_vec write_vec_all with_content_length_write
    with_chunked_encoding_write write_by_content_length write_by_chunked_encoding write_body finish
    finish_content_length finish_chunked_encoding send
program = tt

abbrev pieces : List Bytes
pieces = codes "hello, " ∷ codes "chunked world" ∷ []

abbrev chain : Bytes → Bytes
chain bs = bs

writes_chunks :
    send tape flat chain 40 (with_chunked_encoding_write Writer.new) (codes "> ") pieces
    ≡ some (
      record { write_state = Writer.WriteState.completed 20 },
      codes "> 7\r\nhello, \r\nD\r\nchunked world\r\n0\r\n\r\n",
      ok (some 20),
    )
unfolding program
writes_chunks = refl

write_vec_all-Ends_example :
    Ends tape flat
      (codes "> ")
      (codes "hello")
      (write_vec_all tape flat 6 (codes "> ") (codes "hello"))
write_vec_all-Ends_example =
    write_vec_all-Ends tape flat 6 (codes "> ") (codes "hello") (omega arith)

tape-IsWritable : IsWritable tape flat chain
tape-IsWritable = record { writes = λ s bs. refl; flushes = λ s. refl }

content_length-LengthSent_example :
    LengthSent tape flat chain tape-IsWritable
      (codes "> ")
      9
      0
      (codes "hello, chunked world")
      (send tape flat chain 1 (with_content_length_write Writer.new 9) (codes "> ") pieces)
unfolding flatten
content_length-LengthSent_example =
    content_length-LengthSent tape flat chain tape-IsWritable 1 Writer.new (codes "> ") 9 pieces
      (omega arith)

chunked-ChunksSent_example :
    ChunksSent tape flat chain
      (λ bs. refl)
      (encode pieces ++ last_chunk)
      (codes "> ")
      (send tape flat chain 40 (with_chunked_encoding_write Writer.new) (codes "> ") pieces)
unfolding encode_chunk hex
chunked-ChunksSent_example =
    chunked-ChunksSent tape flat chain (λ bs. refl) 40 Writer.new (codes "> ") pieces (omega arith)

decode-encode_example :
    decode 3 (encode pieces ++ (last_chunk ++ codes "GET ")) ≡ some (flatten pieces, codes "GET ")
decode-encode_example = decode-encode pieces (codes "GET ") (omega arith)

decode-encode_empty_example :
    decode 3 (encode (pieces ++ [] ∷ codes "lost" ∷ []) ++ last_chunk)
    ≡ some (flatten pieces, encode (codes "lost" ∷ []) ++ last_chunk)
decode-encode_empty_example =
    decode-encode_empty pieces (codes "lost" ∷ []) last_chunk (omega arith)
