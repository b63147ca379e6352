-- ===== src/Parser.antt =====
-- lib/vkvideoparser: the parser that the library exports, GstVkVideoDecoderParser
-- (vkvideodecodeparser.cpp), over the GStreamer pipeline of GstVkVideoParser (gstvkvideoparser.cpp).
-- GStreamer and the test harness are a parameter, `Gstreamer`. `none` is a crash: a null or
-- uninitialised pointer is used, or an assertion fails.
pub mod Pipeline
pub mod Lifecycle
pub mod References
pub mod Parse
mod Tests
use gst_vk_video_parser.Prelude.{
  ℕ, ◌+◌, ◌-◌, ◌*◌, Bool, true, false, ◌&&◌, List, [], Option, none, some, ◌==◌, if◌then◌else◌, not,
}
use Pipeline.{
  Codec, FlowReturn, Gstreamer, VideoParser, new_parser, build, push_buffer, send_eos,
  delete_parser, is_ok, is_eos,
}

-- VkParserInitDecodeParameters, what Initialize reads of it.
pub record InitParams : Type 0 where
  pub interface_version : ℕ
  pub client : Option ℕ
  pub out_of_band_picture_parameters : Bool

-- VkParserBitstreamPacket, what ParseByteStream reads of it; `byte_stream` is the data of
-- `data_length` bytes.
pub record BitstreamPacket : Type 0 where
  pub byte_stream : List ℕ
  pub data_length : ℕ
  pub eos : Bool

pub data VkResult : Type 0 where
  success initialization_failed : VkResult

-- NV_VULKAN_VIDEO_PARSER_API_VERSION, VK_MAKE_VIDEO_STD_VERSION(0, 9, 7)
abbrev pub api_version : ℕ
api_version = 9 * 4096 + 7

module _ (g : Gstreamer) where
  -- GstVkVideoDecoderParser
  pub record DecoderParser : Type 0 where
    pub ref_count : ℕ
    pub codec : Codec
    pub parser : Option (VideoParser g)

  -- CreateVulkanVideoDecodeParser, for an output pointer that is not null.
  unfoldable pub create : Codec → DecoderParser
  create codec = record { ref_count = 1; codec = codec; parser = none }

  -- What Initialize makes of Build's answer: the new pipeline is kept also where it was not built.
  unfoldable pub with_pipeline :
      DecoderParser → Option (Bool × VideoParser g) → Option (VkResult × DecoderParser)
  with_pipeline d none = none
  with_pipeline d (some (true, p)) = some (success, record d { parser = some p })
  with_pipeline d (some (false, p)) = some (initialization_failed, record d { parser = some p })

  -- The last part of Initialize.
  unfoldable pub start : DecoderParser → ℕ → Bool → Option (VkResult × DecoderParser)
  unfolding with_pipeline
  start d client oob = with_pipeline d (build g (new_parser g client d.codec oob))

  unfoldable pub initialize : DecoderParser → Option InitParams → Option (VkResult × DecoderParser)
  unfolding start
  initialize d none = some (initialization_failed, d)
  initialize d (some params) =
      if params.interface_version == api_version
      then elim params.client [
        | none ↦ some (initialization_failed, d)
        | some client ↦
            if g.init_check
            then start d client params.out_of_band_picture_parameters
            else some (initialization_failed, d)
      ]
      else some (initialization_failed, d)

  unfoldable pub deinitialize : DecoderParser → Option (Bool × DecoderParser)
  deinitialize d = elim d.parser [
    | none ↦ some (true, d)
    | some p ↦ elim (delete_parser g p) [
      | none ↦ none
      | some _ ↦ some (true, record d { parser = none })
    ]
  ]

  -- The first step of ParseByteStream: the bytes, if there are any. The length is that of the bytes, as the
  -- interface has it, so it is not negative, and gst_buffer_new_memdup aborts rather than give no buffer.
  unfoldable pub parse_data : VideoParser g → BitstreamPacket → Option (Bool × VideoParser g)
  parse_data p packet =
      if packet.data_length == 0
      then some (true, p)
      else elim (push_buffer g p packet.byte_stream) [
        | none ↦ none
        | some (flow, p') ↦ some (is_ok flow, p')
      ]

  -- The second step: the end of the stream, if the packet says so.
  unfoldable pub parse_eos : VideoParser g → BitstreamPacket → Option (Bool × VideoParser g)
  parse_eos p packet =
      if packet.eos
      then elim (send_eos g p) [ none ↦ none | some (flow, p') ↦ some (is_eos flow, p') ]
      else some (true, p)

  -- ParseByteStream before Initialize or after Deinitialize, where m_parser is null.
  unfoldable pub parse_without_pipeline :
      DecoderParser → BitstreamPacket → Option (Bool × ℕ × DecoderParser)
  parse_without_pipeline d packet =
      if packet.data_length == 0 && not packet.eos then some (true, packet.data_length, d) else none

  -- The result, `*parsed` and the new state.
  unfoldable pub parse_byte_stream :
      DecoderParser → BitstreamPacket → Option (Bool × ℕ × DecoderParser)
  parse_byte_stream d packet = elim d.parser [
    | none ↦ parse_without_pipeline d packet
    | some p ↦ elim (parse_data p packet) [
      | none ↦ none
      | some (false, p') ↦ some (false, 0, record d { parser = some p' })
      | some (true, p') ↦ elim (parse_eos p' packet) [
        | none ↦ none
        | some (false, q) ↦ some (false, 0, record d { parser = some q })
        | some (true, q) ↦ some (true, packet.data_length, record d { parser = some q })
      ]
    ]
  ]

  unfoldable pub add_ref : DecoderParser → ℕ × DecoderParser
  add_ref d = (d.ref_count + 1, record d { ref_count = d.ref_count + 1 })

  -- The result, and the object unless it is destroyed.
  unfoldable pub release : DecoderParser → Option (ℕ × Option DecoderParser)
  unfolding deinitialize
  release d =
      if d.ref_count - 1 == 0
      then elim (deinitialize d) [ none ↦ none | some _ ↦ some (0, none) ]
      else some (d.ref_count - 1, some (record d { ref_count = d.ref_count - 1 }))
