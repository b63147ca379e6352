-- ===== src/Parser/References.antt =====
-- A parser object under the application's calls: counted references and destruction.
use gst_vk_video_parser.Prelude.{ℕ, zero, suc, ◌≡◌, List, [], ◌∷◌, Option, none, some}
use gst_vk_video_parser.Parser.{BitstreamPacket, DecoderParser, parse_byte_stream, add_ref, release}
use gst_vk_video_parser.Parser.Pipeline.{Gstreamer, VideoParser}
use gst_vk_video_parser.Parser.Parse.{Plays}

pub data Call : Type 0 where
  adds_ref releases : Call
  parses : BitstreamPacket → Call

module _ (g : Gstreamer) where
  -- One call by the application: a crash, the destruction of the object, or the object after it.
  unfoldable pub step : DecoderParser g → Call → Option (Option (DecoderParser g))
  step d adds_ref = some (some (add_ref g d).1)
  step d releases = elim (release g d) [ none ↦ none | some (n, after) ↦ some after ]
  step d (parses packet) = elim (parse_byte_stream g d packet) [
    | none ↦ none
    | some (b, n, after) ↦ some (some after)
  ]

  -- A sequence of calls; one on an object that is destroyed crashes.
  unfoldable pub run : Option (DecoderParser g) → List Call → Option (Option (DecoderParser g))
  run d [] = some d
  run none (c ∷ cs) = none
  run (some d) (c ∷ cs) = elim (step d c) [ none ↦ none | some after ↦ run after cs ]

-- The references after a call, from `n + 1` on.
abbrev pub next_count : ℕ → Call → ℕ
next_count n adds_ref = suc (suc n)
next_count n releases = n
next_count n (parses packet) = suc n

-- The references that calls leave, from `n` on; `none` where one comes after the last is given up.
abbrev pub balance : ℕ → List Call → Option ℕ
balance n [] = some n
balance zero (c ∷ cs) = none
balance (suc n) (c ∷ cs) = balance (next_count n c) cs

module _ (g : Gstreamer) where
  -- An object whose pipeline plays.
  pub record IsAlive (d : DecoderParser g) : Type 0 where
    pub video : VideoParser g
    pub harness : g.Harness
    pub has_video : d.parser ≡ some video
    pub plays : Plays g video harness

  -- The object with so many references: its pipeline plays, or it is destroyed at 0.
  abbrev pub Holds : ℕ → Option (DecoderParser g) → Type 0
  Holds zero o = o ≡ none
  Holds (suc n) o = (d : DecoderParser g) × (o ≡ some d) × (d.ref_count ≡ suc n) × IsAlive d
