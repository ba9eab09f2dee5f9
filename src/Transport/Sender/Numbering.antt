-- ===== src/Transport/Sender/Numbering.antt =====
-- What a receiver reads from the packets that `sender_outgoing` has numbered.
use web_rtc_weak_network_vid.Common.{
  ℕ, zero, suc, ◌+◌, ◌∙◌, ◌≡◌, ◌⊎◌, ◌≤◌, ◌<◌, refl, true, false, Option, none, some, List, [], ◌∷◌,
  min, ltb, if◌then◌else◌, arith, All, Bool-cases, inl, inr, ap,
}
use web_rtc_weak_network_vid.Common.Words.{IsU16, IsU32}
use web_rtc_weak_network_vid.Rtc.{RtpLib, HasRtpLayout, MessagePtr, is_rtp}
use web_rtc_weak_network_vid.Extension.{CanRewrite, extension_value}
use web_rtc_weak_network_vid.Transport.Metadata.{
  FrameMetadata, add_frame_metadata, read_frame_metadata,
}
use web_rtc_weak_network_vid.Transport.Metadata.RoundTrip.{
  IsMetadata, rewritten-is_rtp, add_frame_metadata_lem, read_frame_metadata-add_frame_metadata,
}
use web_rtc_weak_network_vid.Transport.State.{Handler}
use web_rtc_weak_network_vid.Transport.Sender.{
  media_count, number_loop, metadata_of, sender_outgoing,
}

-- What a receiver reads from the RTP packets of a list, in their order.
unfoldable pub readings : RtpLib → List MessagePtr → List (Option FrameMetadata)
readings lib [] = []
readings lib (message ∷ messages) =
    let rest = readings lib messages in
    if is_rtp lib message then read_frame_metadata lib message ∷ rest else rest

-- The metadata with the indices from `index` on.
unfoldable pub numbered : (ℕ → FrameMetadata) → ℕ → ℕ → List (Option FrameMetadata)
numbered metadata index zero = []
numbered metadata index (suc n) = some (metadata index) ∷ numbered metadata (index + 1) n

-- A message that is RTP has a header that can take the element, and none under its id yet.
unfoldable pub IsFresh : RtpLib → MessagePtr → Type 0
IsFresh lib none = Unit
IsFresh lib (some message) =
    (is_rtp lib (some message) ≡ false)
    ⊎ (CanRewrite lib message.bytes × (extension_value lib 4 12 message.bytes ≡ none))

module _ (lib : RtpLib) (layout : HasRtpLayout lib) where
  number_one :
      (message : MessagePtr) (metadata : FrameMetadata)
      → is_rtp lib message ≡ true
      → IsFresh lib message
      → IsMetadata metadata
      → (is_rtp lib (add_frame_metadata lib message metadata) ≡ true)
        × (read_frame_metadata lib (add_frame_metadata lib message metadata) ≡ some metadata)
  unfolding IsFresh
  number_one none metadata rtp fresh v = absurd (unfold is_rtp in ground (arith, rtp))
  number_one (some message) metadata rtp (inl other) v = ground (arith, rtp, other)
  number_one (some message) metadata rtp (inr fresh) v = (
    rw (add_frame_metadata_lem lib layout message metadata rtp fresh.0)
        (rewritten-is_rtp lib layout message metadata rtp fresh.0),
    read_frame_metadata-add_frame_metadata lib layout message metadata rtp fresh.0 v fresh.1,
  )

  readings-number_loop :
      (metadata : ℕ → FrameMetadata) (count index : ℕ) (messages : List MessagePtr)
      → All (IsFresh lib) messages
      → ((i : ℕ) → i < count → IsMetadata (metadata i))
      → index + media_count lib messages ≤ count
      → readings lib (number_loop lib metadata count index messages)
        ≡ numbered metadata index (media_count lib messages)
  unfolding readings number_loop media_count numbered
  readings-number_loop metadata count index [] fresh v h = refl
  readings-number_loop metadata count index (message ∷ messages) fresh v h =
      elim (Bool-cases (is_rtp lib message)) [
        | inl rtp ↦
            let enough : index + suc (media_count lib messages) ≤ count = ground (arith, rtp) in
            let below : ltb index count ≡ true = ground arith in
            let one = number_one message (metadata index) rtp fresh.0 (v index (omega arith)) in
            rw (rtp, below, one.0, one.1)
              (ap (λ r. some (metadata index) ∷ r)
                (readings-number_loop metadata count (index + 1) messages fresh.1 v (omega arith)))
        | inr other ↦
            let enough : index + media_count lib messages ≤ count = ground (arith, other) in
            rw (other, other) (readings-number_loop metadata count index messages fresh.1 v enough)
      ]

  readings_none :
      (messages : List MessagePtr) → media_count lib messages ≡ 0 → readings lib messages ≡ []
  unfolding readings media_count
  readings_none [] e = refl
  readings_none (message ∷ messages) e = ground (arith, readings_none messages)

  pub metadata_of-IsMetadata :
      (h : Handler) (count : ℕ)
      → IsU16 h.epoch
      → IsU32 h.next_frame_id
      → count ≤ 65535
      → (i : ℕ) → i < count
      → IsMetadata (metadata_of lib h count i)
  metadata_of-IsMetadata h count epoch frame_id few i below = record {
    epoch_fits = epoch;
    frame_id_fits = frame_id;
    index_fits = omega arith;
    count_fits = omega arith;
  }

  readings_at :
      (messages : List MessagePtr) (h : Handler) (m : ℕ)
      → All (IsFresh lib) messages
      → IsU16 h.epoch
      → IsU32 h.next_frame_id
      → media_count lib messages ≡ m
      → m ≤ 65535
      → readings lib (sender_outgoing lib messages h).0 ≡ numbered (metadata_of lib h m) 0 m
  unfolding sender_outgoing numbered
  readings_at messages h zero fresh epoch frame_id e few =
      rw (e, sender_outgoing) (readings_none messages e)
  readings_at messages h (suc n) fresh epoch frame_id e few =
      let whole : min (suc n) 65535 ≡ suc n = omega arith in
      let loop =
        readings-number_loop (metadata_of lib h (suc n)) (suc n) 0 messages fresh
          (metadata_of-IsMetadata h (suc n) epoch frame_id few) (omega arith) in
      rw (e, sender_outgoing, whole) (loop ∙ ap (numbered (metadata_of lib h (suc n)) 0) e)

  -- Under the layout of RTP headers: if each RTP packet among the messages can take the metadata
  -- and has none yet, there are at most 65535 of them, and the handler's epoch and frame number fit
  -- their widths, then what a receiver reads from the RTP packets after `sender_outgoing`, in their
  -- order, is the handler's epoch, frame number and keyframe flag, the number of the packets, and
  -- 0, 1, 2 and so on as the index.
  pub sender_outgoing-readings :
      (messages : List MessagePtr) (h : Handler)
      → All (IsFresh lib) messages
      → IsU16 h.epoch
      → IsU32 h.next_frame_id
      → media_count lib messages ≤ 65535
      → readings lib (sender_outgoing lib messages h).0
        ≡ numbered (metadata_of lib h (media_count lib messages)) 0 (media_count lib messages)
  sender_outgoing-readings messages h fresh epoch frame_id few =
      readings_at messages h (media_count lib messages) fresh epoch frame_id refl few
