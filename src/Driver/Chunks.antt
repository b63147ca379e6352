-- ===== src/Driver/Chunks.antt =====
-- The read loop of test/testes.cpp, which feeds a file to the parser in pieces of BUFSIZ bytes.
use gst_vk_video_parser.Prelude.{
  ℕ, zero, suc, ◌<◌, ◌≡◌, refl, ap, ap₂, sym, ◌∙◌, Bool, true, false, List, [], ◌∷◌, ◌++◌, map,
  append_assoc, Option, none, some, length, take, drop, take-length-append, drop-length-append,
  take_all, drop_all, ltb, ◌==◌, if◌then◌else◌, arith,
}
use gst_vk_video_parser.Parser.{BitstreamPacket}

-- A piece of the file, as long as the buffer or shorter.
abbrev pub piece : ℕ → List ℕ → BitstreamPacket
piece buf_size bytes = record {
  byte_stream = bytes;
  data_length = length bytes;
  eos = ltb (length bytes) buf_size;
}

-- ParseByteStream with the number of bytes it says to have parsed; `none` is a crash.
module _ {ℓ} {S : Type ℓ} (buf_size : ℕ) (parse : S → BitstreamPacket → Option (Bool × ℕ × S)) where
  -- How far the loop came: it ended, a crash or a failed assertion, or it still runs.
  pub data Fed : Type ℓ where
    finished : S → Fed
    broken : Fed
    unfinished : Fed

  -- What follows ParseByteStream.
  abbrev pub after_piece : ℕ → Option (Bool × ℕ × S) → (S → Fed) → Fed
  after_piece read none next = broken
  after_piece read (some (false, parsed, s)) next = finished s
  after_piece read (some (true, parsed, s)) next = if read == parsed then next s else broken

  -- The loop, by the rounds that it may still take; fread gives the next bytes of the file, as many as
  -- the buffer holds if there are so many.
  unfoldable pub feed_file : ℕ → List ℕ → S → Fed
  feed_file zero file s = unfinished
  feed_file (suc rounds) file s =
      let bytes = take buf_size file in
      if length bytes == 0
      then finished s
      else after_piece (length bytes) (parse s (piece buf_size bytes))
          (feed_file rounds (drop buf_size file))

  -- Pieces one after the other.
  abbrev pub feed_pieces : List BitstreamPacket → S → Fed
  feed_pieces [] s = finished s
  feed_pieces (p ∷ ps) s = after_piece p.data_length (parse s p) (feed_pieces ps)

  abbrev pub whole : List (List ℕ) → List ℕ
  whole [] = []
  whole (b ∷ bs) = b ++ whole bs

  -- Every piece fills the buffer.
  abbrev pub AllFull : List (List ℕ) → Type 0
  AllFull [] = Unit
  AllFull (b ∷ bs) = (length b ≡ buf_size) × AllFull bs

  abbrev pub unended : List ℕ → BitstreamPacket
  unended bytes = record { byte_stream = bytes; data_length = length bytes; eos = false }

  -- The rest of a file behind its full pieces, with the end of the stream.
  abbrev pub last_piece : List ℕ → List BitstreamPacket
  last_piece [] = []
  last_piece (b ∷ bs) =
      record { byte_stream = b ∷ bs; data_length = length (b ∷ bs); eos = true } ∷ []

  after_piece-next :
      (read : ℕ) (r : Option (Bool × ℕ × S)) (next next' : S → Fed)
      → ((s : S) → next s ≡ next' s)
      → after_piece read r next ≡ after_piece read r next'
  after_piece-next read none next next' h = refl
  after_piece-next read (some (false, parsed, s)) next next' h = refl
  after_piece-next read (some (true, parsed, s)) next next' h =
      ap (λ f. if read == parsed then f else broken) (h s)

  -- A round, by the bytes that are read and those behind them.
  abbrev round : ℕ → List ℕ → List ℕ → S → Fed
  round rounds bytes rest s =
      if length bytes == 0
      then finished s
      else after_piece (length bytes) (parse s (piece buf_size bytes)) (feed_file rounds rest)

  feed_file-round :
      (rounds : ℕ) (file bytes rest : List ℕ) (s : S)
      → take buf_size file ≡ bytes
      → drop buf_size file ≡ rest
      → feed_file (suc rounds) file s ≡ round rounds bytes rest s
  unfolding feed_file
  feed_file-round rounds file bytes rest s read left = ap₂ (λ b r. round rounds b r s) read left

  piece-eos :
      (b : List ℕ) (last : Bool)
      → ltb (length b) buf_size ≡ last
      → piece buf_size b ≡ record { byte_stream = b; data_length = length b; eos = last }
  piece-eos b last e = ap (λ l. record { byte_stream = b; data_length = length b; eos = l }) e

  round-some :
      (rounds : ℕ) (b rest : List ℕ) (last : Bool) (s : S)
      → 0 < length b
      → ltb (length b) buf_size ≡ last
      → round rounds b rest s
        ≡ after_piece
            (length b)
            (parse s (record { byte_stream = b; data_length = length b; eos = last }))
            (feed_file rounds rest)
  round-some rounds b rest last s some_there e =
      let more : (length b == 0) ≡ false = ground (arith, some_there) in
      ap
        (λ c.
          if c
          then finished s
          else after_piece (length b) (parse s (piece buf_size b)) (feed_file rounds rest))
        more
      ∙ ap (λ p. after_piece (length b) (parse s p) (feed_file rounds rest)) (piece-eos b last e)

  feed_file-full :
      (rounds : ℕ) (b file : List ℕ) (s : S)
      → length b ≡ buf_size
      → 0 < buf_size
      → feed_file (suc rounds) (b ++ file) s
        ≡ after_piece (length b) (parse s (unended b)) (feed_file rounds file)
  feed_file-full rounds b file s full room =
      feed_file-round rounds (b ++ file) b file s
        (ap (λ n. take n (b ++ file)) (sym full) ∙ take-length-append b file)
        (ap (λ n. drop n (b ++ file)) (sym full) ∙ drop-length-append b file)
      ∙ round-some rounds b file false s (omega arith) (ground (arith, full))

  feed_file_empty : (rounds : ℕ) (s : S) → feed_file (suc rounds) [] s ≡ finished s
  feed_file_empty rounds s =
      feed_file-round rounds [] [] [] s (take_all buf_size [] (omega arith))
        (drop_all buf_size [] (omega arith))

  feed_file_last :
      (rounds : ℕ) (tail : List ℕ) (s : S)
      → length tail < buf_size
      → feed_file (suc (suc rounds)) tail s ≡ feed_pieces (last_piece tail) s
  feed_file_last rounds [] s short = feed_file_empty (suc rounds) s
  feed_file_last rounds (x ∷ xs) s short =
      feed_file-round (suc rounds) (x ∷ xs) (x ∷ xs) [] s (take_all buf_size (x ∷ xs) (omega arith))
        (drop_all buf_size (x ∷ xs) (omega arith))
      ∙ round-some (suc rounds) (x ∷ xs) [] true s (omega arith) (ground (arith, short))
      ∙ after_piece-next (length (x ∷ xs)) _ (feed_file (suc rounds) []) finished
          (feed_file_empty rounds)

  pub feed_file_lem :
      (full : List (List ℕ)) (tail : List ℕ) (s : S)
      → 0 < buf_size
      → AllFull full
      → length tail < buf_size
      → feed_file (suc (suc (length full))) (whole full ++ tail) s
        ≡ feed_pieces (map unended full ++ last_piece tail) s
  feed_file_lem [] tail s room full short = feed_file_last 0 tail s short
  feed_file_lem (b ∷ bs) tail s room (full, fulls) short =
      ap (λ f. feed_file (suc (suc (suc (length bs)))) f s) (append_assoc b (whole bs) tail)
      ∙ feed_file-full (suc (suc (length bs))) b (whole bs ++ tail) s full room
      ∙ after_piece-next (length b) (parse s (unended b)) _
          (feed_pieces (map unended bs ++ last_piece tail))
          (λ s'. feed_file_lem bs tail s' room fulls short)
