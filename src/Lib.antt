-- ===== src/Lib.antt =====
-- Verification of GstVkVideoParser, a library that parses H.264 and H.265 streams with GStreamer and
-- describes each picture to a client in the structures of Vulkan Video.
--
-- The application creates a parser object (lib/vkvideoparser/vkvideodecodeparser.cpp), which builds a
-- GStreamer pipeline (lib/vkvideoparser/gstvkvideoparser.cpp) and pushes byte packets into it. In the
-- pipeline a decoder element (lib/plugins/gstvkh264dec.cpp, gstvkh265dec.cpp) is called by GStreamer's
-- base decoder for each sequence, picture and slice, and calls the client. The demuxer
-- (lib/demuxeres/gstdemuxeres.c) is a second, independent library, which splits a file into packets.
--
-- FrameRate        lib/plugins/videoutils.c: pack_framerate
-- Bitstream        the bytes and slice offsets of a picture: vk_pic_new, decode_slice and the first
--                  part of end_picture of both decoder elements
-- H264/SliceGroups lib/plugins/gstvkh264dec.cpp: get_slice_group_map
-- H264/Dpb         lib/plugins/gstvkh264dec.cpp: fill_dbp_entry and the reference frames that
--                  start_picture lists
-- Parser           lib/vkvideoparser/vkvideodecodeparser.cpp: GstVkVideoDecoderParser
-- Parser/Pipeline  lib/vkvideoparser/gstvkvideoparser.cpp: GstVkVideoParser
-- Prelude          names, tests, lists and words that the modules share
-- Demuxer          lib/demuxeres/gstdemuxeres.c: its types and state
-- Demuxer/Caps     what it reads from caps, autoplugging, and the names it prints
-- Demuxer/Streams  the list of streams: stream_create, pad_added, find_stream, find_best_stream
-- Demuxer/Bus      bus messages, the bus thread, the wait for a first state, gst_demuxer_es_new
-- Demuxer/Reading  appsink_read_packet, gst_demuxer_es_read_packet, and the read loop of
--                  test/testdemuxeres.cpp
-- Client           test/VideoParserClient.h: the client of the test programs and its pool of pictures,
--                  with new_picture and vk_pic_free of the decoder elements
-- H264/Sequence    lib/plugins/gstvkh264dec.cpp: new_sequence and the table of levels
-- Updates          update_picture_parameters of both decoder elements: which parameter sets the client
--                  is told of, and their numbers
-- Shared           include/vkvideo_parser/VkParserVideoRefCountBase.h: VkSharedBaseObj, with the objects
--                  of test/VideoParserClient.h that it holds for a decoder element
-- H265/RefPics      lib/plugins/gstvkh265dec.cpp: the reference pictures and the three sets of start_picture
-- H265/ParameterSets the same file: fill_sps, fill_pps, fill_vps, fill_scaling_list and get_profile_idc, from
--                  the parser's structures to those of Vulkan Video
-- H265/Starting    the same file: update_picture_parameters over the storage, and start_picture
-- H264/ParameterSets lib/plugins/gstvkh264dec.cpp: fill_sps, fill_pps and the tables get_h264_..., from the
--                  parser's structures to those of Vulkan Video
-- H264/Starting    the same file: update_picture_parameters over the storage, and start_picture
-- Driver           test/test.cpp and test/testes.cpp: the read loops, over the demuxer and the parser
-- H265/Sequence    lib/plugins/gstvkh265dec.cpp: new_sequence
-- Pictures         lib/plugins/gstvkh264dec.cpp and gstvkh265dec.cpp: end_picture and output_picture
-- Element          lib/plugins/gstvkh264dec.cpp and gstvkh265dec.cpp: set_property and unhandled_nalu, with the
--                  properties that lib/vkvideoparser/gstvkvideoparser.cpp gives an element
-- .../Contents     in both ParameterSets: what each field of a structure of Vulkan Video is to hold, which the
--                  theorems compare the code's writers with
-- Demuxer/History  the stream that the stream-start events among the objects read named last
--
-- Each operation is a function that returns the new state; a crash, an assertion that fails or the use
-- of an uninitialised pointer is `none` or a constructor of its own. Machine integers are native
-- natural numbers, with their wrap-around written out. Loops that need not end take fuel:
-- `FrameRate.rounds` is 20, which `FrameRate.Bounds` shows to be enough for every 32-bit input, and the
-- loops of get_slice_group_map take any fuel, where one round more than there are map units is enough
-- for the types 1 and 6 with at most 255 units. The read loops take a number of rounds, where one
-- for each sample is enough if they end at all.
--
-- Not modelled: GStreamer, its codecs library and its harness (copies in lib/codecs and lib/harness),
-- which are parameters; log output; the registration of the plugins; the test programs but for
-- their read loops; the printing callbacks of the test client.
pub mod Prelude
pub mod FrameRate
pub mod Bitstream
pub mod H264
pub mod Parser
pub mod Demuxer
pub mod Client
pub mod Updates
pub mod Shared
pub mod H265
pub mod Driver
pub mod Pictures
pub mod Element
