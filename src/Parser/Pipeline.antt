-- ===== src/Parser/Pipeline.antt =====
-- lib/vkvideoparser/gstvkvideoparser.cpp: the pipeline parser ! decoder ! fakesink in a harness.
use gst_vk_video_parser.Prelude.{
  ℕ, Bool, true, false, ◌||◌, List, [], ◌++◌, Option, none, some, if◌then◌else◌,
}

-- The codecs that Build tells apart.
pub data Codec : Type 0 where
  decode_h264 decode_h265 other_codec : Codec

-- GstFlowReturn: the two values that the code tests for, GST_FLOW_ERROR, and any other.
pub data FlowReturn : Type 0 where
  flow_ok flow_eos flow_error : FlowReturn
  flow_other : ℕ → FlowReturn

pub data Message : Type 0 where
  error warning eos other_message : Message

-- What the library uses of GStreamer and of the harness. `new_harness` is a playing pipeline for the
-- codec with the client and the "oob-pic-params" property; `push` and `push_eos` also return the
-- messages that the pipeline posts on its bus.
pub record Gstreamer : Type 1 where
  pub Harness : Type 0
  pub init_check : Bool
  pub has_decoder : Codec → Bool
  pub links : Codec → Bool
  pub new_harness : ℕ → Codec → Bool → Harness
  pub push : Harness → List ℕ → FlowReturn × List Message × Harness
  pub push_eos : Harness → Bool × List Message × Harness

abbrev pub is_ok : FlowReturn → Bool
is_ok flow_ok = true
is_ok _ = false

abbrev pub is_eos : FlowReturn → Bool
is_eos flow_eos = true
is_eos _ = false

module _ (g : Gstreamer) where
  -- m_parser and m_bus: the harness, and the messages on the bus.
  pub record Playing : Type 0 where
    pub harness : g.Harness
    pub bus : List Message

  -- GstVkVideoParser. `playing` is `none` until Build has set m_parser and m_bus: the constructor
  -- leaves the two pointers uninitialised.
  pub record VideoParser : Type 0 where
    pub user_data : ℕ
    pub codec : Codec
    pub oob_pic_params : Bool
    pub playing : Option Playing

  unfoldable pub new_parser : ℕ → Codec → Bool → VideoParser
  new_parser user_data codec oob = record {
    user_data = user_data;
    codec = codec;
    oob_pic_params = oob;
    playing = none;
  }

  -- Build from the line that links the elements on.
  unfoldable pub link : VideoParser → Bool × VideoParser
  link p = if g.links p.codec then (true, record p { playing = some started }) else (false, p)
    where
      started : Playing
      started = record { harness = g.new_harness p.user_data p.codec p.oob_pic_params; bus = [] }

  -- `g_assert (decoder)` fails where the decoder's plugin is not there.
  unfoldable pub build_codec : Codec → VideoParser → Option (Bool × VideoParser)
  build_codec decode_h264 p = if g.has_decoder decode_h264 then some (link p) else none
  build_codec decode_h265 p = if g.has_decoder decode_h265 then some (link p) else none
  build_codec other_codec p = some (false, p)

  -- Build
  unfoldable pub build : VideoParser → Option (Bool × VideoParser)
  unfolding build_codec link
  build p = build_codec p.codec p

  -- ProcessMessages pops the bus until it is empty; it only logs what it finds.
  abbrev pub process_messages : Playing → Playing
  process_messages s = record s { bus = [] }

  -- PushBuffer; the messages are left on the bus where the flow is neither OK nor EOS.
  unfoldable pub push_buffer : VideoParser → List ℕ → Option (FlowReturn × VideoParser)
  push_buffer p buffer = elim p.playing [
    | none ↦ none
    | some s ↦
        let (flow, posted, h) = g.push s.harness buffer in
        let s' : Playing = record { harness = h; bus = s.bus ++ posted } in
        if is_ok flow || is_eos flow
        then some (flow, record p { playing = some (process_messages s') })
        else some (flow, record p { playing = some s' })
  ]

  -- Eos
  unfoldable pub send_eos : VideoParser → Option (FlowReturn × VideoParser)
  send_eos p = elim p.playing [
    | none ↦ none
    | some s ↦
        let (sent, posted, h) = g.push_eos s.harness in
        let s' : Playing = record { harness = h; bus = s.bus ++ posted } in
        if sent
        then some (flow_eos, record p { playing = some (process_messages s') })
        else some (flow_error, record p { playing = some s' })
  ]

  -- The destructor tears the harness down and drains the bus; it reads both pointers.
  unfoldable pub delete_parser : VideoParser → Option (Unit {0})
  delete_parser p = elim p.playing [ none ↦ none | some s ↦ some tt ]
