-- ===== src/Transport/Reports.antt =====
-- video/video_transport_handler.cpp: `sender_incoming`, the sender's walk over the RTCP packets of the
-- messages. `none` is a loop out of fuel.
pub mod Walk
use web_rtc_weak_network_vid.Common.{
  ℕ, zero, suc, ◌+◌, ◌%◌, ◌^◌, Bool, true, false, not, ◌&&◌, ◌||◌, Option, none, some, List, [],
  ◌∷◌, ◌++◌, ◌==◌, ltb, leb, if◌then◌else◌, length, drop,
}
use web_rtc_weak_network_vid.Rtc.{RtpLib, MessagePtr}
use web_rtc_weak_network_vid.Transport.Metadata.{read_u32}
use web_rtc_weak_network_vid.Transport.State.{Handler, inc64}
use web_rtc_weak_network_vid.Transport.Drain.{rtcp_app, keyframe_ack_name, keyframe_ack_size}

-- The statistics that the walk changes, and the two callbacks that it notes, by their being set.
pub record Reports : Type 0 where
  pub retransmitted_packets : ℕ
  pub pli_packets : ℕ
  pub request_keyframe : Bool
  pub keyframe_acknowledged : Bool

-- kRtcpTransportFeedback, kRtcpPayloadFeedback, kNackFeedbackFormat, kPliFeedbackFormat
abbrev pub rtcp_transport_feedback : ℕ
rtcp_transport_feedback = 205

abbrev pub rtcp_payload_feedback : ℕ
rtcp_payload_feedback = 206

abbrev pub nack_feedback_format : ℕ
nack_feedback_format = 1

abbrev pub pli_feedback_format : ℕ
pli_feedback_format = 1

-- One `++` for each number.
abbrev pub count_all : List ℕ → ℕ → ℕ
count_all [] n = n
count_all (sequence ∷ sequences) n = count_all sequences (inc64 n)

module _ (lib : RtpLib) (h : Handler) where
  -- What one RTCP packet does; `packet` begins with it, and `size` is its size.
  unfoldable pub note_packet : List ℕ → ℕ → Reports → Reports
  note_packet packet size r =
      if lib.rtcp_payload_type packet == rtcp_transport_feedback
        && lib.report_count packet == nack_feedback_format
        && leb lib.sizeof_nack_without_parts size
      then record r {
        retransmitted_packets = count_all (lib.nack_sequences packet) r.retransmitted_packets;
      }
      else if lib.rtcp_payload_type packet == rtcp_payload_feedback
          && lib.report_count packet == pli_feedback_format
      then record r {
        pli_packets = inc64 r.pli_packets;
        request_keyframe = h.keyframe_requested_callback;
      }
      else if lib.rtcp_payload_type packet == rtcp_app
          && leb keyframe_ack_size size
          && read_u32 packet 8 == keyframe_ack_name
      then record r { keyframe_acknowledged = h.keyframe_acknowledged_callback }
      else r

  -- The `while` over one message; `rest` is what stands from `offset` on.
  unfoldable pub walk_loop : ℕ → List ℕ → Reports → Option Reports
  walk_loop zero rest r = none
  walk_loop (suc fuel) rest r =
      let size = lib.length_in_bytes rest in
      let next = walk_loop fuel (drop size rest) (note_packet rest size r) in
      if ltb (length rest) lib.sizeof_rtcp_header
      then some r
      else if ltb size lib.sizeof_rtcp_header || ltb (length rest) size
      then some r
      else next

  unfoldable pub walk_message : MessagePtr → Reports → Option Reports
  walk_message none r = some r
  walk_message (some message) r =
      if not message.control || ltb (length message.bytes) lib.sizeof_rtcp_header
      then some r
      else walk_loop (suc (length message.bytes)) message.bytes r

  unfoldable pub walk_messages : List MessagePtr → Reports → Option Reports
  unfolding walk_message
  walk_messages [] r = some r
  walk_messages (message ∷ messages) r = elim (walk_message message r) [
    | none ↦ none
    | some noted ↦ walk_messages messages noted
  ]

-- The handler after the call, and whether the keyframe request and the acknowledgement are called, the
-- request first.
unfoldable pub sender_incoming : RtpLib → List MessagePtr → Handler → Option (Handler × Bool × Bool)
unfolding walk_messages
sender_incoming lib messages h =
    let start : Reports = record {
      retransmitted_packets = h.stats.retransmitted_packets;
      pli_packets = h.stats.pli_packets;
      request_keyframe = false;
      keyframe_acknowledged = false;
    } in
    elim (walk_messages lib h messages start) [
      | none ↦ none
      | some r ↦ some (
        record h {
          stats = record (h.stats) {
            retransmitted_packets = r.retransmitted_packets;
            pli_packets = r.pli_packets;
          };
        },
        r.request_keyframe,
        r.keyframe_acknowledged,
      )
    ]
