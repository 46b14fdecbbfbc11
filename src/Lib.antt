-- ===== src/Lib.antt =====
-- MediaEngine takes RTMP streams from encoders and passes them on. This library models the server's
-- session with an encoder, common/src/source/rtmp/rtmp_stream.cpp, and what it stands on: the
-- handshake, the chunk stream of RTMP and the AMF0 values in its command messages, under
-- common/src/media/rtmp; the tags in front of video and audio, under common/src/media/flv; the
-- configurations in sequence headers, under common/src/media/bitstream; and the readers and writers
-- of bits and the escapes of URLs, under common/src/media/bitstream/nalu and common/src/core.
--
-- How the parts interact. A sender hands a message to `RtmpExportChunk::ExportStreamData`, which
-- chooses a header (`GetChunkHeader`), writes it and the body in blocks with type 3 headers between
-- them (`RtmpMuxUtil`) and remembers the message. A receiver hands the bytes that have arrived to
-- `RtmpImportChunk::Import`, which lets `RtmpChunkParser` read the header, in several calls if it
-- must, completes it from the last header of the same chunk stream, waits for the payload, takes
-- the type 3 headers out of it and queues the message. The bodies of command messages are
-- `AmfDocument`s. The parsers of H.264 and H.265 parameter sets, which a video message carries, read
-- their fields through `NalUnitBitstreamParser`.
--
-- On top stands `RtmpStream`. Its thread appends each piece of data to what is left of the last ones
-- and takes packets off it: the client's version and signature, which it answers through
-- `RtmpHandshake`, then the client's answer, then chunks, which it hands to the importer. Each message
-- goes to its handler: a control message changes the importer or the window, a command is an
-- `AmfDocument` and is answered through the exporter, and video and audio are stored until the stream
-- is published, then parsed as FLV tags and passed on as samples of their tracks.
--
-- The files, each with its part of the source:
--   Base, Base/*          Boolean tests on numbers, lists, bytes, bit masks; no code of the program
--   Rtmp/Header           rtmp_datastructure.h: RtmpChunkHeader, RtmpMessage; constants of
--                         rtmp_define.h stand where they are used
--   Rtmp/MuxUtil          rtmp_mux_util.cpp; its child Sizes counts what is written
--   Rtmp/ChunkParser      rtmp_chunk_parser.cpp and .h: `turn` is a round of the loop of Parse;
--                         children Headers and RoundTrip (reading what MuxUtil writes), Safety and
--                         Totality (any bytes)
--   Rtmp/ImportChunk      rtmp_import_chunk.cpp; children Process, Blocks, Rounds, Finalize, Steps
--                         (the way of a whole message), Totality (any bytes), Timestamps, Empty
--   Rtmp/ExportChunk      rtmp_export_chunk.cpp; its child Buffer
--   Rtmp/Wire             from the exporter to the importer: Delivery of one message, Ordering of many,
--                         Empty of a message without a body
--   Amf/Value             the data of amf_document.h
--   Amf/Encode, Decode    AmfUtil, and Encode and Decode of AmfProperty and AmfObjectArray
--   Amf/Document          AmfDocument; its child RoundTrip
--   Amf/Object            AddProperty, FindName and the Get functions of AmfObjectArray,
--                         GetPropertyIndex of AmfDocument
--   Amf/RoundTrip, Fuel, Lookup   what holds of these
--   Nalu/Emulation        the constructor of NalUnitBitstreamParser; Unescape is what holds of it
--   Nalu/BitReader        ReadBit of bit_reader.h, ReadUEV and ReadSEV; ExpGolomb is what holds of
--                         them
--   Nalu/ReadBits         ReadBits and ReadBytes<uint8_t> of bit_reader.h
--   Nalu/Splitter         nal_unit_splitter.{h,cpp} and nal_unit_fragment_header.cpp; its child
--                         Fragments is what holds of them
--   Flv                   flv_parser.cpp; its child Fields is what holds of it
--   Bitstream/BitWriter   core/bit_writer.cpp
--   Bitstream/Aac, Avc    aac_specific_config.cpp, h264_decoder_configuration_record.cpp and the two
--                         GetExtradata, with what holds of them in RoundTrip
--   Bitstream/Adts        aac_converter.cpp and Convert of aac_latm_to_adts.cpp; its child RoundTrip
--                         is what holds of them
--   Bitstream/Reading     the calls of BitReader and NalUnitBitstreamParser as steps of a parser that
--                         may return false; its children have the rules by which such a parser ends
--                         (Ends) and reads what stands in front of it (Reads)
--   Bitstream/H264, H264/Sps   h264_parser.cpp; the children of Sps are the layout of a parameter set
--                         (Layout), what is read of it (Reads, RoundTrip) and that ParseSPS ends (Ends)
--   Bitstream/H265 and its children   h265_parser.cpp; Sps/Ends is what holds of ParseSPS
--   Bitstream/Converter   h264_converter.cpp and Convert of h264_avcc_to_annexb.cpp; its child
--                         RoundTrip is what holds of them, on the units that Plain describes;
--                         Splits puts them together with Nalu/Splitter
--   Url                   Encode and Decode of core/url.cpp; Escapes is what holds of them
--   Rtmp/Handshake        rtmp_handshake.cpp; its child Digest is what holds of it
--   Session               the state of rtmp_stream.h, and the actions on it
--   Session/Send          SendData to SendAmfOnStatus
--   Session/Tracks        AddTrack, GetTrack, SetTrackInfo, ConvertToSnyMediaSample, SendFrame
--   Session/Media         ReceiveVideoMessage, ReceiveAudioMessage, PublishStream: the two handlers
--                         differ by a type, which `receive_media_message` takes
--   Session/MetaData      OnAmfMetaData
--   Session/Commands      OnAmfConnect to OnAmfDeleteStream, ReceiveAmfCommandMessage and
--                         ReceiveAmfDataMessage
--   Session/Receive       ReceiveHandshakePacket, ReceiveChunkPacket, ReceiveChunkMessage, the
--                         control messages, and `on_data`, a round of onThreadProc
--   Session/Keeping, its children, and Session/Invariant   the invariant of a session
--   Session/Sends, Replies, Publishing, Replay, Live, Handshaking   what else holds of it
--   Tests, below each part   the theorems on concrete data
--
-- Representation. Memory and streams are lists of bytes, numbers are natural numbers with their
-- wrap-around written out (24-bit fields, 32-bit sizes, the 31-bit test on an int). An object that
-- a method changes is a record that its function takes and returns; maps are association lists. A
-- read behind the data, a write behind a buffer, a division by 0 and a null pointer are outcomes of
-- their own (`crash`, `overread`, `overflow`), so that a theorem can exclude them. A C string is its
-- bytes before the 0, a double its 64 bits. Timestamps are natural numbers without the bound of
-- int64_t, which no stream comes near. A handler of the session is a function from the state to a
-- `Run`: a value with the new state, or the end of the process. What the session sends and what the
-- application hears are lists in the state. `Supply` and `Environment` stand for OpenSSL, the random
-- numbers, the clock and `ov::Url::Parse`, which rests on std::regex, and for the conversions of
-- doubles.
--
-- Fuel. Parse has 5 rounds: each round that goes on moves to the next of 4 statuses. The blocks of
-- a message have fuel for the bytes that are left, as each takes one at least; where no progress is
-- made the model says `stuck`. AmfProperty::Decode has fuel for the bytes of its memory and two
-- more, AmfDocument::Decode for `data_length` and one more. The loop over a NAL unit has fuel for its
-- length, and the first loop of ReadUEV for the bits that are left and one more. ReadBits has fuel for
-- its bits. The scans for start codes, the conversions of packets and the loop over ADTS frames have
-- fuel for the bytes: a round takes one at least. The loops of a session have fuel for the bytes, or
-- for the messages, and one more: a round that goes on takes one at least.
--
-- Not modelled: text for the log (ToString, Dump, logtd), the statistics, the debug assertions, the
-- destructors and Destroy, RtmpMuxUtil::GetChunkHeader and GetChunkData (which nothing calls), the
-- queue and the lock between OnDataReceived and the session's thread, the sockets, the codecs'
-- picture parameter sets and slice headers, AACAdts, the tracker of parameter sets, the
-- other reads of BitReader, and the wrappers over FFmpeg, Bento4, OpenSSL and libuv.
pub mod Base
pub mod Amf
pub mod Bitstream
pub mod Flv
pub mod Nalu
pub mod Rtmp
pub mod Session
pub mod Url
