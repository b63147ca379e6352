-- ===== src/Bitstream/Assembly.antt =====
-- The bytes and offsets of a picture are those of its slices, and the offsets cut them apart again.
use mathlib.Core.Path.{subst}
use gst_vk_video_parser.Prelude.{
  ℕ, zero, suc, ◌+◌, ◌<◌, ◌≡◌, refl, sym, some_eq, ap, get_last?, ◌∙◌, true, ltb, leb, List, [],
  ◌∷◌, ◌++◌, append_assoc, append-nil, Option, none, some, length, length-append, length-take,
  length-drop, drop, get_elem?, get_last?-append, slice, slice-append, to_u32, u32_mod, arith,
}
use gst_vk_video_parser.Bitstream.{
  NalUnit, payload, IsWithin, Bitstream, nal, fresh, decode_slice, decode_slices, PictureBytes,
  steal,
}

-- A slice as the client gets it.
abbrev pub framed : NalUnit → List ℕ
framed n = nal ++ payload n

abbrev pub stream : List NalUnit → List ℕ
stream [] = []
stream (n ∷ ns) = framed n ++ stream ns

abbrev pub AllWithin : List NalUnit → Type 0
AllWithin [] = Unit {0}
AllWithin (n ∷ ns) = IsWithin n × AllWithin ns

-- The offsets of the slices from `start` on, and the end of the last one.
abbrev pub offsets_from : ℕ → List NalUnit → List ℕ
offsets_from start [] = start ∷ []
offsets_from start (n ∷ ns) = start ∷ offsets_from (to_u32 (start + n.size + length nal)) ns

length-framed : (n : NalUnit) → IsWithin n → length (framed n) ≡ n.size + 3
length-framed n h =
    omega (arith, length-take n.size (drop n.offset n.bytes), length-drop n.offset n.bytes)

decode_slice_last :
    (b : Bitstream) (pre : List ℕ) (last : ℕ) (n : NalUnit)
    → b.slice_offsets ≡ pre ++ last ∷ []
    → IsWithin n
    → length b.bytes + 3 + n.size < u32_mod
    → decode_slice b n
      ≡ some (record {
        bytes = b.bytes ++ framed n;
        slice_offsets = b.slice_offsets ++ to_u32 (last + n.size + length nal) ∷ [];
        num_slices = to_u32 (b.num_slices + 1);
      })
unfolding decode_slice
decode_slice_last b pre last n e within room =
    let found : get_last? b.slice_offsets ≡ some last =
      ap get_last? e ∙ get_last?-append pre last in
    let inside : leb (n.offset + n.size) (length n.bytes) ≡ true = ground (arith, within) in
    let fits : ltb (length b.bytes + 3 + n.size) u32_mod ≡ true = ground (arith, room) in
    rw (found, decode_slice) (rw (inside, fits) refl)

-- The loop over a picture's slices, from any state.
pub record Decoded (b : Bitstream) (pre : List ℕ) (last : ℕ) (ns : List NalUnit) : Type 0 where
  pub after : Bitstream
  pub result : decode_slices b ns ≡ some after
  pub bytes : after.bytes ≡ b.bytes ++ stream ns
  pub offsets : after.slice_offsets ≡ pre ++ offsets_from last ns
  pub count : after.num_slices ≡ to_u32 (b.num_slices + length ns)

pub decode_slices-Decoded :
    (b : Bitstream) (pre : List ℕ) (last : ℕ) (ns : List NalUnit)
    → b.slice_offsets ≡ pre ++ last ∷ []
    → b.num_slices < u32_mod
    → AllWithin ns
    → length b.bytes + length (stream ns) < u32_mod
    → Decoded b pre last ns
unfolding decode_slices
decode_slices-Decoded b pre last [] e w h fits = record {
  after = b;
  result = refl;
  bytes = sym (append-nil b.bytes);
  offsets = e;
  count = omega arith;
}
decode_slices-Decoded b pre last (n ∷ ns) e w h fits =
    let next : ℕ = to_u32 (last + n.size + length nal) in
    let b' : Bitstream = record {
      bytes = b.bytes ++ framed n;
      slice_offsets = b.slice_offsets ++ next ∷ [];
      num_slices = to_u32 (b.num_slices + 1);
    } in
    let width = length-framed n h.0 in
    let total = length-append (framed n) (stream ns) in
    let longer = length-append b.bytes (framed n) in
    let r =
      decode_slices-Decoded b' (pre ++ last ∷ []) next ns (ap (λ l. l ++ next ∷ []) e) (omega arith)
        h.1 (omega arith) in
    record {
      after = r.after;
      result = rw (decode_slice_last b pre last n e h.0 (omega arith), decode_slices) r.result;
      bytes = r.bytes ∙ append_assoc b.bytes (framed n) (stream ns);
      offsets = r.offsets ∙ append_assoc pre (last ∷ []) (offsets_from next ns);
      count = omega (arith, r.count);
    }

-- The calls of one picture from vk_pic_new to end_picture.
unfoldable pub assemble : List NalUnit → Option PictureBytes
assemble ns = elim (decode_slices fresh ns) [ none ↦ none | some b ↦ some (steal b).0 ]

-- For slices within their buffers and of fewer than 2 ^ 32 bytes no call faults, and the client gets the
-- slices in order, each behind its start code, the number of bytes and of slices, and the offsets as
-- running sums.
pub assemble_lem :
    (ns : List NalUnit)
    → AllWithin ns
    → length (stream ns) < u32_mod
    → assemble ns
      ≡ some (record {
        bitstream_data = stream ns;
        bitstream_data_len = to_u32 (length (stream ns));
        num_slices = to_u32 (length ns);
        slice_data_offsets = offsets_from 0 ns;
      })
unfolding assemble fresh steal
assemble_lem ns h fits =
    let r = decode_slices-Decoded fresh [] 0 ns refl (omega arith) h (omega (arith, fits)) in
    rw (r.result, assemble, steal) (rw (r.bytes, r.offsets, r.count) (ground arith))

-- Where slice `i` starts and ends, and what lies there.
pub record Cut (whole : List ℕ) (offsets : List ℕ) (i : ℕ) (part : List ℕ) : Type 0 where
  pub first : ℕ
  pub last : ℕ
  pub at_first : get_elem? offsets i ≡ some first
  pub at_last : get_elem? offsets (suc i) ≡ some last
  pub between : slice whole first last ≡ part

offsets_from-head :
    (start : ℕ) (ns : List NalUnit) → get_elem? (offsets_from start ns) 0 ≡ some start
offsets_from-head start [] = refl
offsets_from-head start (n ∷ ns) = refl

offsets_from-Cut :
    (front : List ℕ) (start : ℕ) (ns : List NalUnit) (i : ℕ) (n : NalUnit)
    → start ≡ length front
    → AllWithin ns
    → start + length (stream ns) < u32_mod
    → get_elem? ns i ≡ some n
    → Cut (front ++ stream ns) (offsets_from start ns) i (framed n)
offsets_from-Cut front start [] i n e h fits at = absurd (cc)
offsets_from-Cut front start (m ∷ ms) zero n e h fits at =
    let next : ℕ = to_u32 (start + m.size + length nal) in
    let same : m ≡ n = some_eq at in
    let width = length-framed m h.0 in
    let total = length-append (framed m) (stream ms) in
    subst (λ x. Cut (front ++ stream (m ∷ ms)) (offsets_from start (m ∷ ms)) 0 (framed x)) same
      (record {
        first = start;
        last = next;
        at_first = refl;
        at_last = offsets_from-head next ms;
        between = slice-append front (framed m) (stream ms) start next e (omega arith);
      })
offsets_from-Cut front start (m ∷ ms) (suc i) n e h fits at =
    let next : ℕ = to_u32 (start + m.size + length nal) in
    let width = length-framed m h.0 in
    let total = length-append (framed m) (stream ms) in
    let joined = length-append front (framed m) in
    let r = offsets_from-Cut (front ++ framed m) next ms i n (omega arith) h.1 (omega arith) at in
    record {
      first = r.first;
      last = r.last;
      at_first = r.at_first;
      at_last = r.at_last;
      between = rw (append_assoc front (framed m) (stream ms)) at r.between;
    }

-- A picture whose slices lie within their buffers and whose bytes number less than 2 ^ 32: the
-- offsets handed to the client cut its bytes into the slices again, slice `i` lying between offsets
-- `i` and `i + 1`.
pub assemble-Cut :
    (ns : List NalUnit) (p : PictureBytes) (i : ℕ) (n : NalUnit)
    → AllWithin ns
    → length (stream ns) < u32_mod
    → assemble ns ≡ some p
    → get_elem? ns i ≡ some n
    → Cut p.bitstream_data p.slice_data_offsets i (framed n)
assemble-Cut ns p i n h fits e at =
    subst (λ q. Cut q.bitstream_data q.slice_data_offsets i (framed n))
      (some_eq (sym (assemble_lem ns h fits) ∙ e))
      (offsets_from-Cut [] 0 ns i n refl h (omega arith) at)
