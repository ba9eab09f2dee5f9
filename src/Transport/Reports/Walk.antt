-- ===== src/Transport/Reports/Walk.antt =====
-- The end of the sender's walk over reports, and the receiver's acknowledgement in it.
use web_rtc_weak_network_vid.Common.{
  ℕ, zero, suc, ◌+◌, ◌*◌, ◌≡◌, ◌∙◌, ap, ◌<◌, refl, Bool, true, false, not, ◌||◌, none, some, List,
  [], ◌∷◌, arith, length, drop, ltb, length-drop, inl, inr, Bool-cases,
}
use web_rtc_weak_network_vid.Rtc.{RtpLib, MessagePtr}
use web_rtc_weak_network_vid.Transport.State.{Handler}
use web_rtc_weak_network_vid.Transport.Metadata.{read_u32}
use web_rtc_weak_network_vid.Transport.Drain.{keyframe_ack, keyframe_ack_name}
use web_rtc_weak_network_vid.Transport.Reports.{
  Reports, note_packet, walk_loop, walk_message, walk_messages, sender_incoming,
}

module _ (lib : RtpLib) (header : 0 < lib.sizeof_rtcp_header) (h : Handler) where
  walk_loop_ends :
      (fuel : ℕ) (rest : List ℕ) (r : Reports)
      → length rest < fuel
      → (r' : Reports) × (walk_loop lib h fuel rest r ≡ some r')
  unfolding walk_loop
  walk_loop_ends zero rest r enough = absurd (omega arith)
  walk_loop_ends (suc fuel) rest r enough =
      let size = lib.length_in_bytes rest in
      elim (Bool-cases (ltb (length rest) lib.sizeof_rtcp_header)) [
        | inl short ↦ (r, rw short)
        | inr long ↦ elim (Bool-cases (ltb size lib.sizeof_rtcp_header || ltb (length rest) size)) [
          | inl broken ↦ (r, rw (long, broken))
          | inr whole ↦
              let smaller : length (drop size rest) < fuel =
                ground (arith, length-drop size rest) in
              let (r', e) =
                walk_loop_ends fuel (drop size rest) (note_packet lib h rest size r) smaller in
              (r', rw (long, whole) e)
        ]
      ]

  walk_message_ends :
      (message : MessagePtr) (r : Reports)
      → (r' : Reports) × (walk_message lib h message r ≡ some r')
  unfolding walk_message
  walk_message_ends none r = (r, refl)
  walk_message_ends (some message) r =
      elim (Bool-cases (not message.control || ltb (length message.bytes) lib.sizeof_rtcp_header)) [
        | inl skipped ↦ (r, rw skipped)
        | inr walked ↦
            let (r', e) =
              walk_loop_ends (suc (length message.bytes)) message.bytes r (omega arith) in
            (r', rw walked e)
      ]

  walk_messages_end :
      (messages : List MessagePtr) (r : Reports)
      → (r' : Reports) × (walk_messages lib h messages r ≡ some r')
  unfolding walk_messages
  walk_messages_end [] r = (r, refl)
  walk_messages_end (message ∷ messages) r =
      let (r₁, e) = walk_message_ends message r in
      let (r₂, f) = walk_messages_end messages r₁ in (r₂, rw (e, walk_messages) f)

  -- If the RTCP header has a size, then whatever messages come in, the sender's walk over their
  -- RTCP packets ends, and it keeps the frames and the number of the next frame.
  pub sender_incoming_returns :
      (messages : List MessagePtr)
      → (h' : Handler) × (request acknowledged : Bool) × (sender_incoming lib messages h
          ≡ some (h', request, acknowledged))
        × (h'.frames ≡ h.frames)
        × (h'.next_frame_id ≡ h.next_frame_id)
  unfolding sender_incoming
  sender_incoming_returns messages =
      let (r, e) = walk_messages_end messages (record {
        retransmitted_packets = h.stats.retransmitted_packets;
        pli_packets = h.stats.pli_packets;
        request_keyframe = false;
        keyframe_acknowledged = false;
      }) in
      (
        record h {
          stats = record (h.stats) {
            retransmitted_packets = r.retransmitted_packets;
            pli_packets = r.pli_packets;
          };
        },
        r.request_keyframe,
        r.keyframe_acknowledged,
        rw (e, sender_incoming),
        refl,
        refl,
      )

-- The acknowledgement that a receiver sends, as a message.
abbrev pub ack_message : ℕ → ℕ → MessagePtr
ack_message epoch frame_id =
    some (record { control = true; bytes = keyframe_ack epoch frame_id; stream = 0 })

length-keyframe_ack : (epoch frame_id : ℕ) → length (keyframe_ack epoch frame_id) ≡ 20
unfolding keyframe_ack
length-keyframe_ack epoch frame_id = refl

name-keyframe_ack :
    (epoch frame_id : ℕ) → read_u32 (keyframe_ack epoch frame_id) 8 ≡ keyframe_ack_name
unfolding keyframe_ack
name-keyframe_ack epoch frame_id = refl

module _ (lib : RtpLib) (h : Handler) (epoch frame_id : ℕ) (header : lib.sizeof_rtcp_header ≡ 4)
    (length_law : (v t l m : ℕ) (bs : List ℕ)
      → lib.length_in_bytes (v ∷ t ∷ l ∷ m ∷ bs) ≡ (l * 256 + m + 1) * 4)
    (type_law : (v t : ℕ) (bs : List ℕ) → lib.rtcp_payload_type (v ∷ t ∷ bs) ≡ t) where
  ack_size : lib.length_in_bytes (keyframe_ack epoch frame_id) ≡ 20
  unfolding keyframe_ack
  ack_size = length_law _ _ _ _ _

  ack_type : lib.rtcp_payload_type (keyframe_ack epoch frame_id) ≡ 204
  unfolding keyframe_ack
  ack_type = type_law _ _ _

  note_packet-keyframe_ack :
      (r : Reports)
      → note_packet lib h (keyframe_ack epoch frame_id) 20 r
        ≡ record r { keyframe_acknowledged = h.keyframe_acknowledged_callback }
  unfolding note_packet
  note_packet-keyframe_ack r =
      rw (ack_type, note_packet) (rw (name-keyframe_ack epoch frame_id) refl)

  walk_loop-nothing :
      (fuel : ℕ) (rest : List ℕ) (r : Reports)
      → length rest ≡ 0
      → walk_loop lib h (suc fuel) rest r ≡ some r
  unfolding walk_loop
  walk_loop-nothing fuel rest r e = ground (arith, header)

  walk_loop-keyframe_ack :
      (fuel : ℕ) (r : Reports)
      → walk_loop lib h (suc (suc fuel)) (keyframe_ack epoch frame_id) r
        ≡ some (record r { keyframe_acknowledged = h.keyframe_acknowledged_callback })
  unfolding walk_loop
  walk_loop-keyframe_ack fuel r =
      let ack = keyframe_ack epoch frame_id in
      let long : ltb (length ack) lib.sizeof_rtcp_header ≡ false =
        ground (arith, header, length-keyframe_ack epoch frame_id) in
      let whole : (ltb 20 lib.sizeof_rtcp_header || ltb (length ack) 20) ≡ false =
        ground (arith, header, length-keyframe_ack epoch frame_id) in
      let gone : length (drop 20 ack) ≡ 0 =
        omega (arith, length-drop 20 ack, length-keyframe_ack epoch frame_id) in
      rw (long, ack_size, whole, note_packet-keyframe_ack r)
        (walk_loop-nothing fuel (drop 20 ack)
          (record r { keyframe_acknowledged = h.keyframe_acknowledged_callback }) gone)

  walk_message-keyframe_ack :
      (r : Reports)
      → walk_message lib h (ack_message epoch frame_id) r
        ≡ some (record r { keyframe_acknowledged = h.keyframe_acknowledged_callback })
  unfolding walk_message
  walk_message-keyframe_ack r =
      let long : ltb (length (keyframe_ack epoch frame_id)) lib.sizeof_rtcp_header ≡ false =
        ground (arith, header, length-keyframe_ack epoch frame_id) in
      rw long (
        ap (λ (n : ℕ). walk_loop lib h (suc n) (keyframe_ack epoch frame_id) r)
          (length-keyframe_ack epoch frame_id)
        ∙ walk_loop-keyframe_ack 19 r)

  walk_messages-keyframe_ack :
      (r : Reports)
      → walk_messages lib h (ack_message epoch frame_id ∷ []) r
        ≡ some (record r { keyframe_acknowledged = h.keyframe_acknowledged_callback })
  unfolding walk_messages
  walk_messages-keyframe_ack r = rw (walk_message-keyframe_ack r, walk_messages) refl

  -- If the RTCP header is 4 bytes long, and its length in bytes and its payload type are read as
  -- RFC 3550 lays them out, then a sender that gets the message in which a receiver acknowledges
  -- any keyframe calls the callback for the acknowledgement, if it is set, requests no keyframe and
  -- keeps its state.
  pub sender_incoming-keyframe_ack :
      sender_incoming lib (ack_message epoch frame_id ∷ []) h
      ≡ some (h, false, h.keyframe_acknowledged_callback)
  unfolding sender_incoming
  sender_incoming-keyframe_ack =
      rw
        (
          walk_messages-keyframe_ack (record {
            retransmitted_packets = h.stats.retransmitted_packets;
            pli_packets = h.stats.pli_packets;
            request_keyframe = false;
            keyframe_acknowledged = false;
          }),
          sender_incoming,
        )
        refl
