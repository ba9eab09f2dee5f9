-- ===== src/Transport/Receive/Network.antt =====
-- A frame on its way: `sender_outgoing` numbers its packets, the network brings them in any order and
-- some more than once, and `receiver_incoming` passes them up.
use web_rtc_weak_network_vid.Common.{
  ℕ, zero, suc, ◌+◌, ◌≤◌, ◌<◌, ◌≡◌, ◌∙◌, refl, sym, ap, subst, true, none, some, List, [], ◌∷◌,
  ◌++◌, ◌-◌, arith, min, ltb, length, get_elem?, All,
}
use web_rtc_weak_network_vid.Common.Words.{IsU16, IsU32}
use web_rtc_weak_network_vid.Common.Maps.{find}
use web_rtc_weak_network_vid.Rtc.{RtpLib, HasRtpLayout, Message, MessagePtr, is_rtp}
use web_rtc_weak_network_vid.Extension.{CanRewrite, extension_value}
use web_rtc_weak_network_vid.Transport.Metadata.{FrameMetadata, read_frame_metadata}
use web_rtc_weak_network_vid.Transport.Metadata.RoundTrip.{
  IsMetadata, rewritten, rewritten-is_rtp, add_frame_metadata_lem,
  read_frame_metadata-add_frame_metadata,
}
use web_rtc_weak_network_vid.Transport.State.{Handler, FrameAssembly, complete, max_buffered_frames}
use web_rtc_weak_network_vid.Transport.Sender.{
  media_count, number_loop, metadata_of, sender_outgoing,
}
use web_rtc_weak_network_vid.Transport.Sender.Numbering.{metadata_of-IsMetadata}
use web_rtc_weak_network_vid.Transport.Gate.Buffer.{IsBuffer}
use web_rtc_weak_network_vid.Transport.Gate.Gathering.{occurs}
use web_rtc_weak_network_vid.Transport.Gate.Gathering.Steps.{Frame, Awaits}
use web_rtc_weak_network_vid.Transport.Drain.{Effect}
use web_rtc_weak_network_vid.Transport.Drain.Synchronized.{packets_of}
use web_rtc_weak_network_vid.Transport.Receive.{Clock, receiver_incoming}
use web_rtc_weak_network_vid.Transport.Receive.AnyOrder.{arrivals, IsSent, receive_any_order}

-- A packet as it comes from the packetizer: RTP, with a header that can take the metadata, and without.
unfoldable pub IsMedia : RtpLib → MessagePtr → Type 0
IsMedia lib none = ⊥
IsMedia lib (some message) =
    (is_rtp lib (some message) ≡ true)
    × CanRewrite lib message.bytes
    × (extension_value lib 4 12 message.bytes ≡ none)

module _ (lib : RtpLib) where
  media_count-All :
      (messages : List MessagePtr)
      → All (IsMedia lib) messages
      → media_count lib messages ≡ length messages
  unfolding media_count IsMedia
  media_count-All [] media = refl
  media_count-All (none ∷ messages) media = absurd media.0
  media_count-All (some message ∷ messages) media =
      rw media.0.0 (ap suc (media_count-All messages media.1))

  length-number_loop :
      (metadata : ℕ → FrameMetadata) (count index : ℕ) (messages : List MessagePtr)
      → length (number_loop lib metadata count index messages) ≡ length messages
  unfolding number_loop
  length-number_loop metadata count index [] = refl
  length-number_loop metadata count index (message ∷ messages) = ground (
    arith,
    length-number_loop metadata count index messages,
    length-number_loop metadata count (index + 1) messages,
  )

  sender_outgoing_media :
      (messages : List MessagePtr) (s : Handler) (n : ℕ)
      → media_count lib messages ≡ suc n
      → suc n ≤ 65535
      → (sender_outgoing lib messages s).0
        ≡ number_loop lib (metadata_of lib s (suc n)) (suc n) 0 messages
  unfolding sender_outgoing
  sender_outgoing_media messages s n e few =
      let whole : min (suc n) 65535 ≡ suc n = omega arith in rw (e, sender_outgoing, whole) refl

  -- The frame that a sender's handler makes of some packets.
  abbrev pub frame_of : Handler → List MessagePtr → Frame
  frame_of s messages = record {
    epoch = s.epoch;
    frame_id = s.next_frame_id;
    keyframe = s.next_frame_keyframe;
    packets = (sender_outgoing lib messages s).0;
  }

module _ (lib : RtpLib) (layout : HasRtpLayout lib) where
  numbered_packet :
      (metadata : ℕ → FrameMetadata) (count index : ℕ) (messages : List MessagePtr) (j : ℕ)
      → All (IsMedia lib) messages
      → ((i : ℕ) → i < count → IsMetadata (metadata i))
      → index + length messages ≤ count
      → j < length messages
      → (message : Message) × (get_elem? (number_loop lib metadata count index messages) j
          ≡ some (some message))
        × (is_rtp lib (some message) ≡ true)
        × (read_frame_metadata lib (some message) ≡ some (metadata (index + j)))
  unfolding number_loop IsMedia
  numbered_packet metadata count index [] j media v room below = absurd (omega arith)
  numbered_packet metadata count index (none ∷ messages) j media v room below = absurd media.0
  numbered_packet metadata count index (some message ∷ messages) zero media v room below =
      let (rtp, can, fresh) = media.0 in
      let enough : ltb index count ≡ true = ground arith in
      let z : index + 0 ≡ index = omega arith in
      let added = add_frame_metadata_lem lib layout message (metadata index) rtp can in
      (
        record message { bytes = rewritten lib layout message (metadata index) rtp can },
        rw (rtp, enough, added) refl,
        rewritten-is_rtp lib layout message (metadata index) rtp can,
        rw z (
            ap (read_frame_metadata lib) (sym added)
            ∙ read_frame_metadata-add_frame_metadata lib layout message (metadata index) rtp can
                (v index (omega arith)) fresh),
      )
  numbered_packet metadata count index (some message ∷ messages) (suc j) media v room below =
      let (rtp, can, fresh) = media.0 in
      let z : index + suc j ≡ index + 1 + j = omega arith in
      let (later, there, rest, reads) =
        numbered_packet metadata count (index + 1) messages j media.1 v (omega arith)
          (omega arith) in
      (later, rw rtp there, rest, rw z reads)

  pub frame_of-IsSent :
      (messages : List MessagePtr) (s : Handler) (n : ℕ)
      → All (IsMedia lib) messages
      → IsU16 s.epoch
      → IsU32 s.next_frame_id
      → length messages ≡ suc n
      → suc n ≤ 65535
      → (length (sender_outgoing lib messages s).0 ≡ suc n) × IsSent lib (frame_of lib s messages)
  frame_of-IsSent messages s n media epoch frame_id size few =
      let loop = number_loop lib (metadata_of lib s (suc n)) (suc n) 0 messages in
      let same =
        sender_outgoing_media lib messages s n (media_count-All lib messages media ∙ size) few in
      let long : length loop ≡ suc n =
        length-number_loop lib (metadata_of lib s (suc n)) (suc n) 0 messages ∙ size in
      let long' = ap length same ∙ long in
      (
        long',
        λ j below.
            let z : 0 + j ≡ j = omega arith in
            let (message, there, rtp, reads) =
              numbered_packet (metadata_of lib s (suc n)) (suc n) 0 messages j media
                (metadata_of-IsMetadata lib layout s (suc n) epoch frame_id few)
                (omega (arith, size)) (omega (arith, size, long')) in
            (
              message,
              ap (λ (l : List MessagePtr). get_elem? l j) same ∙ there,
              rtp,
              reads
                  ∙ ap (λ (k : ℕ). some (metadata_of lib s (suc n) k)) z
                  ∙ ap (λ (c : ℕ). some (metadata_of lib s c j)) (sym long'),
            ),
      )

  -- Under the layout of RTP headers: let a sender's handler number the packets of a frame, which are 1
  -- to 65535, RTP, and such that they can take the metadata and have none yet, and let its epoch and
  -- frame number fit their widths. If `now_us()` reads more than 0, a receiver's buffer is in order
  -- and not full, and the receiver is synchronized, in that epoch, waits for that frame and has no
  -- packet of it, and the packets come in one call of `receiver_incoming`, in whatever order, and
  -- however often each of them comes, if each comes at all, then the call returns, and passes up the
  -- packets as the sender numbered them, in the order of the sender, and behind them those of complete
  -- frames only. The buffer is in order after it.
  pub receiver_incoming-sender_outgoing :
      (messages : List MessagePtr) (s h : Handler) (clock : Clock) (j : ℕ) (order : List ℕ)
      → All (IsMedia lib) messages
      → length messages ≤ 65535
      → IsU16 s.epoch
      → IsU32 s.next_frame_id
      → ((i k : ℕ) → 0 < clock.packet i k)
      → Awaits lib (frame_of lib s messages) h
      → find s.next_frame_id h.frames ≡ none
      → length h.frames < max_buffered_frames
      → All (λ i. i < length messages) (j ∷ order)
      → ((i : ℕ) → i < length messages → occurs i (j ∷ order) ≡ true)
      → (h' : Handler) × (rest : List FrameAssembly) × (effects : List Effect) × (receiver_incoming
            lib clock
            (arrivals (sender_outgoing lib messages s).0 (j ∷ order))
            h
          ≡ some (h', (sender_outgoing lib messages s).0 ++ packets_of rest, effects))
        × All (λ g. complete g ≡ true) rest
        × IsBuffer lib h'
  receiver_incoming-sender_outgoing messages s h clock j order media few epoch frame_id later w
        absent room below covered =
      let n = length messages - 1 in
      let size : length messages ≡ suc n = omega (arith, below.0) in
      let (long, sent) =
        frame_of-IsSent messages s n media epoch frame_id size (omega (arith, few)) in
      let same : length messages ≡ length (sender_outgoing lib messages s).0 = size ∙ sym long in
      receive_any_order lib (frame_of lib s messages) sent clock j order h later w absent room
        (subst (λ (m : ℕ). All (λ i. i < m) (j ∷ order)) same below)
        (λ i under. covered i (omega (arith, same, under)))
