-- ===== src/Tests/Samples.antt =====
-- Concrete streams, memory and parser for the interfaces that the sessions take.
use glaive.Prelude.{
  ℕ, zero, suc, ◌-◌, ◌≤◌, ◌<◌, ◌≡◌, ◌≢◌, refl, sym, false, Option, none, some, [], ◌∷◌, ◌++◌,
  Outcome, ok, panic, arith, ap, ltb, leb, ◌&&◌, take, drop, length, replicate, if◌then◌else◌,
  length-take, length-replicate, take-append-drop, append-nil, Option-cases, inl, inr,
}
use Prim.Native.Char.{code}
use Prim.Native.String.{String}
use mathlib.Core.List.{flatten}
use glaive.Session.Offset.{Bytes}
use glaive.Session.Streams.{
  AsyncRead, IsReliable, Memory, ChunkParser, ChunkStatus, complete, partial, invalid, AsyncWrite,
  Buf,
}
use glaive.Session.Writer.Hex.{hex_number}
use glaive.Session.Writer.Decode.{split_line}

pub fed_next :
    (s : Bytes) (room : ℕ) (bs : Bytes) → ok (take room s) ≡ ok bs → s ≡ bs ++ drop room s
fed_next s room bs e = ground (arith, take-append-drop room s)

pub fed_fits : (s : Bytes) (room : ℕ) (bs : Bytes) → ok (take room s) ≡ ok bs → length bs ≤ room
fed_fits s room bs e = ground (arith, length-take room s)

pub fed_returns : (s : Bytes) (room : ℕ) → ok (take room s) ≢ panic
fed_returns s room e = cc

-- A stream that gives its bytes as there is room.
abbrev pub feed : AsyncRead
feed = record {
  Stream = Bytes;
  read = λ s room. (drop room s, ok (take room s));
  incoming = λ s. s;
  read_next = fed_next;
  read_fits = fed_fits;
  read_returns = fed_returns;
}

pub take_some : (s : Bytes) (room : ℕ) → 0 < room → take room s ≡ [] → s ≡ []
take_some [] room h e = refl
take_some (b ∷ s) zero h e = absurd (omega arith)
take_some (b ∷ s) (suc room) h e = cc

abbrev pub feed_reliable : IsReliable feed
feed_reliable = record {
  gives = λ s room. take room s;
  read_gives = λ s room. refl;
  gives_some = take_some;
}

pub zeroed_length : (n : ℕ) → length {A = ℕ} (replicate n 0) ≡ n
zeroed_length n = length-replicate n 0

abbrev pub zeroed : Memory
zeroed = record { uninit = λ n. replicate n 0; uninit_length = zeroed_length }

-- Chunk heads without extensions, of sizes up to 65535.
unfoldable pub sized : ℕ → ℕ → ChunkStatus
sized head size =
    if ltb 0 head && (leb head 64 && leb size 65535) then complete head size else invalid

abbrev parse_line : Bytes → Option (Bytes × Bytes) → ChunkStatus
parse_line bs none = partial
parse_line bs (some (line, rest)) = elim (hex_number 0 line) [
  | none ↦ invalid
  | some size ↦ sized (length bs - length rest) size
]

unfoldable pub parse_hex : Bytes → ChunkStatus
parse_hex bs = parse_line bs (split_line bs)

sized_bounds :
    (h n head size : ℕ)
    → sized h n ≡ complete head size
    → (head ≡ h) × (0 < head) × (head ≤ 64) × (size ≤ 65535)
unfolding sized
sized_bounds h n head size e = ground arith

parse_hex_bounds :
    (bs : Bytes) (t : Option (Bytes × Bytes)) (head size : ℕ)
    → parse_line bs t ≡ complete head size
    → (0 < head) × (head ≤ length bs) × (head ≤ 64) × (size ≤ 65535)
parse_hex_bounds bs none head size e = cc
parse_hex_bounds bs (some (line, rest)) head size e = elim (Option-cases (hex_number 0 line)) [
  | inl bad ↦ absurd (ground arith)
  | inr (n, good) ↦
      let b = sized_bounds (length bs - length rest) n head size (ground (arith, good)) in
      omega arith
]

pub parse_hex_fits :
    (bs : Bytes) (head size : ℕ)
    → parse_hex bs ≡ complete head size
    → (0 < head) × (head ≤ length bs)
unfolding parse_hex
parse_hex_fits bs head size e =
    let b = parse_hex_bounds bs (split_line bs) head size e in (b.0, b.1)

abbrev pub hex_parser : ChunkParser
hex_parser = record { parse_chunk_size = parse_hex; head_fits = parse_hex_fits }

take_again : (n : ℕ) (bs : Bytes) → take (length (take n bs)) bs ≡ take n bs
take_again zero bs = refl
take_again (suc n) [] = refl
take_again (suc n) (b ∷ bs) = ap (◌∷◌ b) (take_again n bs)

abbrev ok_length : Outcome ℕ → ℕ
ok_length (ok n) = n
ok_length _ = 0

pub took_all :
    (s bs : Bytes) (n : ℕ)
    → ok (length (take 3 bs)) ≡ ok n
    → (n ≤ length bs) × (s ++ take 3 bs ≡ s ++ take n bs)
took_all s bs n e =
    let same : length (take 3 bs) ≡ n = ap ok_length e in
    rw (← same) (omega (arith, length-take 3 bs), ap (◌++◌ s) (sym (take_again 3 bs)))

pub flat_whole : (b : Bytes) → b ≡ flatten (b ∷ []) ++ []
unfolding flatten
flat_whole b = simp append-nil

-- A sink that takes all that `write_all` writes, and three bytes of a poll.
abbrev pub tape : AsyncWrite
tape = record {
  Sink = Bytes;
  written = λ s. s;
  write_all = λ s bs. (s ++ bs, ok tt);
  flush = λ s. (s, ok tt);
  is_write_vectored = λ s. false;
  poll_write = λ s bs. (s ++ take 3 bs, ok (length (take 3 bs)));
  poll_write_vectored = λ s bss. (s ++ take 3 (flatten bss), ok (length (take 3 (flatten bss))));
  write_all_writes = λ s bs e. refl;
  flush_keeps = λ s. refl;
  poll_write_takes = λ s bs n e. took_all s bs n e;
  poll_write_vectored_takes = λ s bss n e. took_all s (flatten bss) n e;
}

abbrev pub flat : Buf
flat = record {
  Buffer = Bytes;
  remaining = λ b. b;
  chunk = λ b. b;
  chunks_vectored = λ b most. b ∷ [];
  advance = λ b n. drop n b;
  chunk_offers = λ b. ([], sym (append-nil b));
  vectored_offers = λ b most. ([], flat_whole b);
  advance_drops = λ b n h. refl;
}

-- The code points of a text.
abbrev pub codes : String → Bytes
codes String.[] = []
codes (String.◌∷◌ c s) = code c ∷ codes s

pub fed_end :
    (room : ℕ) → ◌≡◌ {A = Bytes × Outcome Bytes} (drop room [], ok (take room [])) ([], ok [])
fed_end zero = refl
fed_end (suc room) = refl
