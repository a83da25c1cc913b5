-- ===== src/Tests/Reader.antt =====
-- The body reader of core/src/session/reader.rs on concrete streams.
use glaive.Prelude.{
  ℕ, ◌-◌, ◌≤◌, ◌<◌, ◌≡◌, ◌≢◌, refl, subst, ◌∷◌, ◌++◌, length, take, drop, ◌==◌, if◌then◌else◌,
  Bool-cases, inl, inr, some, none, [], ok, err, panic, connection_closed, arith, usize_mod,
}
use glaive.Session.Offset
use glaive.Session.Offset.{Offset, Bytes}
use glaive.Session.Reader.{
  ReadState, chunked, BodyReader, set_buffer, with_content_length_read, with_chunked_read,
  with_until_closed_read, get_sliced_body,
}
use glaive.Session.Reader.Takes.{
  take_partial, take_until_closed, take_expected, take_chunk, take_head, parse_head,
  parse_chunked_buf, take_chunked, take_new_buf,
}
use glaive.Session.Reader.Reads.{
  fill, refill, read_partially, read_until_closed, read_chunked_at, read_chunked, read_body,
}
use glaive.Session.Reader.Collect.{collect, buffered}
use glaive.Session.Reader.ContentLength.{Exact, content_length-Exact}
use glaive.Session.Reader.UntilClosed.{Whole, until_closed-Whole}
use glaive.Session.Reader.ChunkedSafety.{HeadsFit, chunked-returns}
use glaive.Session.Reader.Places.{SizeFits}
use glaive.Session.Streams.{ChunkParser, ChunkStatus, complete, partial}
use glaive.Session.Reader.Stalls.{Stalls, calls, calls_stall}
use glaive.Session.Reader.Overflow.{take_chunk_overflows}
use glaive.Session.Writer.Hex.{hex_value, hex_number}
use glaive.Session.Writer.Decode.{split_line}
use glaive.Tests.Samples.{
  codes, fed_end, feed, feed_reliable, zeroed, hex_parser, parse_hex, parse_hex_fits, sized,
}

-- All that a run of the reader computes with.
abbrev program : Unit {0}
unfolding Offset.new get_sliced_body set_buffer with_content_length_read with_chunked_read
    with_until_closed_read take_partial take_until_closed take_expected take_chunk take_head
    parse_head parse_chunked_buf take_chunked take_new_buf fill refill read_partially
    read_until_closed read_chunked_at read_chunked read_body collect parse_hex sized split_line
    hex_value hex_number
program = tt

-- A reader with a small buffer, so that reads come in pieces.
abbrev small : BodyReader
small = record {
  read_state = ReadState.start;
  body_buffer = none;
  body_size = 12;
  rewind_buf_size = 0;
}

reads_length :
    (collect feed hex_parser 9
      (with_content_length_read zeroed small 20 (codes "GET "))
      (codes "0123456789abcdefghijk")
      []).2
    ≡ ok (codes "GET 0123456789abcdef")
unfolding program
reads_length = refl

reads_chunks :
    (collect feed hex_parser 20
      (with_chunked_read zeroed small (codes "3\r\na"))
      (codes "bc\r\nA\r\n0123456789\r\n0\r\n\r\n")
      []).2
    ≡ ok (codes "abc0123456789")
unfolding program
reads_chunks = refl

reads_early_end :
    (collect feed hex_parser 9 (with_content_length_read zeroed small 20 []) (codes "012") []).2
    ≡ err connection_closed
unfolding program
reads_early_end = refl

content_length-Exact_example : Exact feed hex_parser [] 20 (codes "GET 0123456789abcdefghijk") (
    collect feed hex_parser 22
      (with_content_length_read zeroed small 20 (codes "GET "))
      (codes "0123456789abcdefghijk")
      [])
content_length-Exact_example =
    content_length-Exact feed hex_parser zeroed feed_reliable small (codes "GET ")
      (codes "0123456789abcdefghijk") 20 refl (omega arith) (omega arith)

until_closed-Whole_example : Whole feed hex_parser [] (codes "ab0123456789") (
    collect feed hex_parser 13
      (with_until_closed_read zeroed small (codes "ab"))
      (codes "0123456789")
      [])
until_closed-Whole_example =
    until_closed-Whole feed hex_parser zeroed feed_reliable small (codes "ab") (codes "0123456789")
      refl (omega arith) (omega arith)

-- A parser that reads a head of `F` as the largest size there is.
abbrev wide_parse : Bytes → ChunkStatus
wide_parse [] = partial
wide_parse (c ∷ bs) = if c == 70 then complete 1 (usize_mod - 1) else parse_hex (c ∷ bs)

wide_fits :
    (bs : Bytes) (head size : ℕ)
    → wide_parse bs ≡ complete head size
    → (0 < head) × (head ≤ length bs)
wide_fits [] head size e = absurd cc
wide_fits (c ∷ bs) head size e = elim (Bool-cases (c == 70)) [
  | inl y ↦ ground (arith, e, y)
  | inr y ↦ parse_hex_fits (c ∷ bs) head size (ground (arith, e, y))
]

abbrev wide_parser : ChunkParser
wide_parser = record { parse_chunk_size = wide_parse; head_fits = wide_fits }

abbrev chunked_reader : BodyReader
unfolding with_chunked_read
chunked_reader = with_chunked_read zeroed small (codes "3\r\na")

head_fits : SizeFits wide_parser (codes "3\r\na")
unfolding program
head_fits head size e = ground arith

chunked_inj :
    (a b c d a' b' c' d' : ℕ)
    → chunked a b c d ≡ chunked a' b' c' d'
    → (b ≡ b') × (c ≡ c') × (d ≡ d')
chunked_inj a b c d a' b' c' d' e = (cc, cc, cc)

-- The run that is taken reads no head of `F`.
chunked_reader-HeadsFit : HeadsFit feed wide_parser 2 chunked_reader (codes "bc\r\nzz")
unfolding program chunked_reader
chunked_reader-HeadsFit = (
  record {
    new = λ total from buf_end expecting st zf zb k e buf has pos owed.
        let four : 4 ≡ k = cc in
        let same_buffer : codes "3\r\na" ++ zeroed.uninit 8 ≡ buf = cc in
        subst (λ (z : ℕ). SizeFits wide_parser (take (z - 0) (drop 0 buf))) four
          (subst (λ (b : Bytes). SizeFits wide_parser (take (4 - 0) (drop 0 b))) same_buffer
            head_fits);
    more_of_head = λ total from buf_end expecting st zf pb k e buf has pos owed.
        absurd (omega (arith, chunked_inj 0 0 0 0 total from buf_end expecting st));
    more_to_parse = λ total from buf_end expecting st pf buf has pos owed.
        absurd (omega (arith, chunked_inj 0 0 0 0 total from buf_end expecting st));
  },
  (
    record {
      new = λ total from buf_end expecting st zf zb k e buf has pos owed.
          absurd (omega (arith, chunked_inj 1 0 0 4 total from buf_end expecting st));
      more_of_head = λ total from buf_end expecting st zf pb k e buf has pos owed.
          absurd (omega (arith, chunked_inj 1 0 0 4 total from buf_end expecting st));
      more_to_parse = λ total from buf_end expecting st pf buf has pos owed.
          absurd (omega (arith, chunked_inj 1 0 0 4 total from buf_end expecting st));
    },
    tt,
  ),
)

chunked-returns_example :
    (collect feed wide_parser 2
      (with_chunked_read zeroed small (codes "3\r\na"))
      (codes "bc\r\nzz")
      []).2
    ≢ panic
unfolding buffered chunked_reader
chunked-returns_example =
    chunked-returns feed wide_parser zeroed small (codes "3\r\na") (codes "bc\r\nzz") 2
      chunked_reader-HeadsFit refl (omega arith)

-- A reader that holds `3`, the start of a chunk's head.
abbrev holding : BodyReader
holding = record {
  read_state = chunked 7 0 5 1;
  body_buffer = some (codes "abcd3678");
  body_size = 8;
  rewind_buf_size = 0;
}

calls_stall_example :
    Stalls feed hex_parser [] (codes "3") 100 7 (calls feed hex_parser 100 holding [])
unfolding parse_hex split_line
calls_stall_example =
    calls_stall feed hex_parser [] fed_end (codes "3") refl (omega arith) (omega arith) 99 holding 7
      5 (codes "abcd3678")
      (record { state = refl; has = refl; inside = omega arith; fits = omega arith; held = refl })

-- A head that claims 2^64 - 3 bytes.
abbrev claimed : BodyReader
claimed = record {
  read_state = chunked 0 0 10 0;
  body_buffer = some (codes "F..\r\n01234");
  body_size = 10;
  rewind_buf_size = 0;
}

take_chunk_overflows_example :
    (o : Offset) × ((take_chunk claimed 0 10 5 (usize_mod - 5)).1 ≡ ok (some o))
    × (get_sliced_body (take_chunk claimed 0 10 5 (usize_mod - 5)).0 o ≡ panic)
take_chunk_overflows_example =
    take_chunk_overflows claimed (codes "F..\r\n01234") 0 0 10 10 5 (usize_mod - 5) refl refl
      (omega arith) (omega arith) (omega arith) (omega arith) (omega arith) (omega arith)
      (omega arith)
