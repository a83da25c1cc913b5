-- ===== src/Session/Heads.antt =====
-- core/src/session/downstream.rs and upstream.rs: the loop that reads a head off a stream, and the
-- headers that it takes out of the buffer.
pub mod Ends
use glaive.Prelude.{
  ℕ, zero, suc, Option, none, some, Bool, true, false, List, [], ◌∷◌, ◌++◌, Outcome, ok, err, panic,
  connection_closed, head_too_large, invalid_head, ltb, ◌==◌, length, if◌then◌else◌,
}
use glaive.Session.KvOffset
use glaive.Session.KvOffset.{KvOffset}
use glaive.Session.Offset.{Bytes}
use glaive.Session.Streams.{AsyncRead}
use glaive.Session.Http.{Version, http09, http10, http11}
use glaive.Session.Platform.{HeadStatus, complete, partial, invalid, ParsedHeader}

abbrev pub max_buffer_size : ℕ
max_buffer_size = 8192

-- What the loop leaves: the buffer, the length of the head and its content.
pub record Head (A : Type 0) : Type 0 where
  pub bytes : Bytes
  pub size : ℕ
  pub parsed : A

module _ (io : AsyncRead) (spare : Bytes → ℕ) where
  open io use {Stream, read}

  module _ {A : Type 0} (parse : Bytes → HeadStatus A) where
    -- A stream that closes before the first byte ends the loop without a head.
    abbrev pub Ended : Type 0
    Ended = Option (Stream × Outcome (Option (Head A)))

    abbrev pub parsed_head : Stream → Bytes → HeadStatus A → Ended → Ended
    parsed_head s buf (complete size a) again =
        some (s, ok (some (record { bytes = buf; size = size; parsed = a })))
    parsed_head s buf partial again = again
    parsed_head s buf invalid again = some (s, err invalid_head)

    abbrev pub read_more : Bytes → (Stream → Bytes → Ended) → Stream × Outcome Bytes → Ended
    read_more buf again (s, err e) = some (s, err e)
    read_more buf again (s, panic) = some (s, panic)
    read_more buf again (s, ok []) =
        if ltb 0 (length buf) then some (s, err connection_closed) else some (s, ok none)
    read_more buf again (s, ok (b ∷ bs)) =
        let buf' = buf ++ (b ∷ bs) in parsed_head s buf' (parse buf') (again s buf')

    unfoldable pub read_head : ℕ → Stream → Bytes → Ended
    read_head zero s buf = none
    read_head (suc fuel) s buf = elim (ltb max_buffer_size (length buf)) [
      | true ↦ some (s, err head_too_large)
      | false ↦ read_more buf (λ s' buf'. read_head fuel s' buf') (read s (spare buf))
    ]

-- The places of the headers that have a name.
unfoldable pub header_offsets : List ParsedHeader → List KvOffset
unfolding KvOffset.new
header_offsets [] = []
header_offsets (h ∷ hs) =
    let rest = header_offsets hs in
    if h.name_len == 0
    then rest
    else KvOffset.new h.name_start h.name_len h.value_start h.value_len ∷ rest

abbrev pub version_of : Option ℕ → Version
version_of none = http09
version_of (some n) = if n == 1 then http11 else if n == 0 then http10 else http09
