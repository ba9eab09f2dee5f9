-- ===== src/Transport/Metadata.antt =====
-- video/video_transport_handler.cpp: the frame metadata of a packet (`add_frame_metadata`,
-- `read_frame_metadata`), an element of 12 bytes under id 4.
pub mod RoundTrip
use web_rtc_weak_network_vid.Common.{
  ℕ, ◌+◌, ◌-◌, ◌*◌, ◌/◌, ◌%◌, Bool, true, false, not, Option, none, some, List, [], ◌∷◌, ◌++◌,
  bit_or, ◌==◌, ltb, if◌then◌else◌, length,
}
use web_rtc_weak_network_vid.Common.Words.{be16, be32, byte_at}
use web_rtc_weak_network_vid.Rtc.{RtpLib, Message, MessagePtr, is_rtp}
use web_rtc_weak_network_vid.Extension.{
  fixed_header_size, old_extension, put_extension, extension_value, pad,
}

abbrev pub frame_info_ext_map_id : ℕ
frame_info_ext_map_id = 4

abbrev pub frame_metadata_size : ℕ
frame_metadata_size = 12

pub record FrameMetadata : Type 0 where
  pub epoch : ℕ
  pub frame_id : ℕ
  pub packet_index : ℕ
  pub packet_count : ℕ
  pub keyframe : Bool

-- `read_u16` and `read_u32` at an offset.
abbrev pub read_u16 : List ℕ → ℕ → ℕ
read_u16 bytes i = byte_at bytes i * 256 + byte_at bytes (i + 1)

abbrev pub read_u32 : List ℕ → ℕ → ℕ
read_u32 bytes i =
    byte_at bytes i * 16777216
    + byte_at bytes (i + 1) * 65536
    + byte_at bytes (i + 2) * 256
    + byte_at bytes (i + 3)

-- The twelve bytes that are pushed on `value`.
abbrev pub metadata_value : FrameMetadata → List ℕ
metadata_value metadata =
    bit_or 0x10 (if metadata.keyframe then 0x01 else 0)
    ∷ (be16 metadata.epoch
        ++ (be32 metadata.frame_id
            ++ (be16 metadata.packet_index ++ (be16 metadata.packet_count ++ (0 ∷ [])))))

abbrev pub metadata_element : FrameMetadata → List ℕ
metadata_element metadata =
    bit_or (frame_info_ext_map_id * 16) (frame_metadata_size - 1) ∷ metadata_value metadata

module _ (lib : RtpLib) where
  unfoldable pub add_frame_metadata : MessagePtr → FrameMetadata → MessagePtr
  add_frame_metadata none metadata = none
  add_frame_metadata (some message) metadata =
      if not (is_rtp lib (some message))
      then some message
      else if ltb (length message.bytes) (fixed_header_size lib message.bytes)
      then some message
      else elim (old_extension lib message.bytes) [
        | none ↦ some message
        | some (payload, body) ↦ some (record message {
          bytes = put_extension lib message.bytes payload (pad (body ++ metadata_element metadata));
        })
      ]

-- What the reader makes of the value: the upper half of its first byte is the version, 1.
unfoldable pub decode_metadata : List ℕ → Option FrameMetadata
decode_metadata value =
    if not (byte_at value 0 / 16 == 1)
    then none
    else some (record {
      epoch = read_u16 value 1;
      frame_id = read_u32 value 3;
      packet_index = read_u16 value 7;
      packet_count = read_u16 value 9;
      keyframe = not (byte_at value 0 % 2 == 0);
    })

module _ (lib : RtpLib) where
  unfoldable pub read_frame_metadata : MessagePtr → Option FrameMetadata
  unfolding decode_metadata
  read_frame_metadata none = none
  read_frame_metadata (some message) =
      if not (is_rtp lib (some message))
      then none
      else elim (extension_value lib frame_info_ext_map_id frame_metadata_size message.bytes) [
        | none ↦ none
        | some value ↦ decode_metadata value
      ]
