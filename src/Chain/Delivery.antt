-- ===== src/Chain/Delivery.antt =====
-- A frame through the whole chain of the sender, and the messages through that of the receiver.
use web_rtc_weak_network_vid.Common.{
  ℕ, suc, ◌+◌, ◌-◌, ◌%◌, ◌≤◌, ◌<◌, ◌≡◌, refl, sym, ap, ◌∙◌, Bool, true, false, none, some, List, [],
  ◌∷◌, ◌++◌, arith, length, All, subst,
}
use web_rtc_weak_network_vid.Common.Maps.{find}
use web_rtc_weak_network_vid.Common.Words.{IsU16, IsU32}
use web_rtc_weak_network_vid.Rtc.{RtpLib, HasRtpLayout, MessagePtr, is_rtp}
use web_rtc_weak_network_vid.Extension.{CanRewrite, extension_value}
use web_rtc_weak_network_vid.Quality.Doubles.{Doubles}
use web_rtc_weak_network_vid.Statistics.Feedback.{StatisticsDirection, StatisticsHandler}
use web_rtc_weak_network_vid.Statistics.Sequence.RoundTrip.{
  numbered, write_twcc_extension_lem, numbered-is_rtp, numbered-CanRewrite, numbered_fresh,
}
use web_rtc_weak_network_vid.Statistics.Handler.{
  ReportLib, Noted, observe_rtp, observe_outgoing, outgoing,
}
use web_rtc_weak_network_vid.Transport.State.{Handler, FrameAssembly, max_buffered_frames, complete}
use web_rtc_weak_network_vid.Transport.Sender.{sender_outgoing}
use web_rtc_weak_network_vid.Transport.Gate.Buffer.{IsBuffer}
use web_rtc_weak_network_vid.Transport.Gate.Gathering.{occurs}
use web_rtc_weak_network_vid.Transport.Gate.Gathering.Steps.{Awaits}
use web_rtc_weak_network_vid.Transport.Drain.{Effect}
use web_rtc_weak_network_vid.Transport.Drain.Synchronized.{packets_of}
use web_rtc_weak_network_vid.Transport.Receive.{Clock, receiver_incoming}
use web_rtc_weak_network_vid.Transport.Receive.AnyOrder.{arrivals}
use web_rtc_weak_network_vid.Transport.Receive.Network.{
  IsMedia, frame_of, frame_of-IsSent, receiver_incoming-sender_outgoing,
}
use web_rtc_weak_network_vid.Chain.{
  Library, packetizer, sr_reporter, nack_responder, pacing, set_track_chain, SenderChain,
  outgoing_of, outgoing_chain,
}

-- A packet as the packetizer makes it: RTP of version 2 without padding, shorter than a datagram, with a
-- header that can be rewritten, and without the metadata.
unfoldable pub IsPacketized : RtpLib → MessagePtr → Type 0
IsPacketized lib none = ⊥
IsPacketized lib (some message) =
    (is_rtp lib (some message) ≡ true)
    × (lib.version message.bytes ≡ 2)
    × (lib.padding message.bytes ≡ false)
    × CanRewrite lib message.bytes
    × (length message.bytes < 65536)
    × (extension_value lib 4 12 message.bytes ≡ none)

module _ {D : Type 0} (double : Doubles D) (lib : RtpLib) (layout : HasRtpLayout lib)
    (reports : ReportLib) (clock : ℕ → ℕ) where
  -- The statistics pass the packets on with a number, and they can still take the metadata.
  outgoing-IsMedia :
      (messages : List MessagePtr) (h : StatisticsHandler) (s : Noted D)
      → All (IsPacketized lib) messages
      → h.direction ≡ StatisticsDirection.sender
      → (passed : List MessagePtr) × (h' : StatisticsHandler) × (s' : Noted D) × (outgoing double
            lib reports clock messages h s
          ≡ some (passed, h', s'))
        × All (IsMedia lib) passed
        × (length passed ≡ length messages)
  unfolding outgoing IsPacketized IsMedia observe_outgoing
  outgoing-IsMedia [] h s fresh sends = ([], h, s, refl, tt, refl)
  outgoing-IsMedia (none ∷ messages) h s fresh sends = absurd fresh.0
  outgoing-IsMedia (some message ∷ messages) h s fresh sends =
      let (rtp, version, unpadded, can, datagram, no_info) = fresh.0 in
      let next = h.next_twcc_sequence in
      let written = write_twcc_extension_lem lib layout message next rtp version unpadded can in
      let after = some (numbered lib layout message next rtp version unpadded can) in
      let counted = record h { next_twcc_sequence = (next + 1) % 65536 } in
      let observed = observe_rtp double lib reports clock after true s in
      let first : observe_outgoing double lib reports clock h.direction (some message) h s
          ≡ some (after, counted, observed) =
        rw (sends, written) refl in
      let (rest, h', s', e, media, same) =
        outgoing-IsMedia messages counted observed fresh.1 sends in
      (
        after ∷ rest,
        h',
        s',
        rw (first, e, outgoing) refl,
        (
          (
            numbered-is_rtp lib layout message next rtp version unpadded can,
            numbered-CanRewrite lib layout message next rtp version unpadded can datagram,
            numbered_fresh lib layout message next rtp version unpadded can no_info,
          ),
          media,
        ),
        ap suc same,
      )

  packetized-IsMedia :
      (messages : List MessagePtr) → All (IsPacketized lib) messages → All (IsMedia lib) messages
  unfolding IsPacketized IsMedia
  packetized-IsMedia [] fresh = tt
  packetized-IsMedia (none ∷ messages) fresh = absurd fresh.0
  packetized-IsMedia (some message ∷ messages) fresh =
      let (rtp, version, unpadded, can, datagram, no_info) = fresh.0 in
      ((rtp, can, no_info), packetized-IsMedia messages fresh.1)

  module _ (pass : Library → List MessagePtr → List MessagePtr) where
    -- What libdatachannel's handlers behind the transport handler make of the packets.
    abbrev behind : List MessagePtr → List MessagePtr
    behind packets = pass pacing (pass nack_responder (pass sr_reporter packets))

    -- The packets that go to the transport handler, and those that leave the chain.
    outgoing_chain_lem :
        (has_estimator : Bool) (frame : List MessagePtr) (c : SenderChain D)
        → All (IsPacketized lib) (pass packetizer frame)
        → c.stats_handler.direction ≡ StatisticsDirection.sender
        → (packets : List MessagePtr) × (c' : SenderChain D) × All (IsMedia lib) packets
          × (length packets ≡ length (pass packetizer frame))
          × (outgoing_chain double lib reports clock pass (set_track_chain has_estimator) frame c
              ≡ some (behind (sender_outgoing lib packets c.transport_handler).0, c'))
    unfolding outgoing_chain outgoing_of set_track_chain
    outgoing_chain_lem false frame c fresh sends =
        let made = pass packetizer frame in
        (
          made,
          record c { transport_handler = (sender_outgoing lib made c.transport_handler).1 },
          packetized-IsMedia made fresh,
          refl,
          refl,
        )
    outgoing_chain_lem true frame c fresh sends =
        let made = pass packetizer frame in
        let (packets, h, s, e, media, same) =
          outgoing-IsMedia made c.stats_handler c.noted fresh sends in
        (
          packets,
          record {
            stats_handler = h;
            noted = s;
            transport_handler = (sender_outgoing lib packets c.transport_handler).1;
          },
          media,
          same,
          rw (e, outgoing_chain, outgoing_of) refl,
        )

    -- Under the layout of RTP headers: if the packetizer makes of a frame 1 to 65535 packets that are RTP
    -- of version 2 without padding, shorter than 65536 bytes, and such that they can take the
    -- extensions and have no metadata yet, the statistics are those of a sender, and the epoch and the
    -- frame number fit their widths, then the sender's chain, with statistics or without, hands as
    -- many packets to libdatachannel's handlers behind the transport handler, and gives what those
    -- make of them. If `now_us()` reads more than 0, a receiver's buffer is in order and not full, and
    -- the receiver is synchronized, in the sender's epoch, waits for that frame and has no packet of
    -- it, and these packets come to its transport handler in one call, in whatever order, and however
    -- often each comes, if each comes at all, then the call passes them up in the order of the sender,
    -- and behind them packets of complete frames only. The buffer is in order after it.
    pub receiver_incoming-outgoing_chain :
        (has_estimator : Bool) (frame : List MessagePtr) (c : SenderChain D) (h : Handler)
        (at : Clock) (j : ℕ) (order : List ℕ)
        → All (IsPacketized lib) (pass packetizer frame)
        → length (pass packetizer frame) ≤ 65535
        → c.stats_handler.direction ≡ StatisticsDirection.sender
        → IsU16 c.transport_handler.epoch
        → IsU32 c.transport_handler.next_frame_id
        → ((i k : ℕ) → 0 < at.packet i k)
        → Awaits lib (frame_of lib c.transport_handler []) h
        → find c.transport_handler.next_frame_id h.frames ≡ none
        → length h.frames < max_buffered_frames
        → All (λ i. i < length (pass packetizer frame)) (j ∷ order)
        → ((i : ℕ) → i < length (pass packetizer frame) → occurs i (j ∷ order) ≡ true)
        → (packets : List MessagePtr) × (c' : SenderChain D) × (outgoing_chain double lib reports
              clock pass
              (set_track_chain has_estimator)
              frame
              c
            ≡ some (behind packets, c'))
          × (length packets ≡ length (pass packetizer frame))
          × ((h' : Handler) × (rest : List FrameAssembly) × (effects : List Effect)
              × (receiver_incoming lib at (arrivals packets (j ∷ order)) h
                  ≡ some (h', packets ++ packets_of rest, effects))
              × All (λ g. complete g ≡ true) rest
              × IsBuffer lib h')
    receiver_incoming-outgoing_chain has_estimator frame c h at j order fresh few sends epoch id
          later w absent room below covered =
        let (made, c', media, same, e) = outgoing_chain_lem has_estimator frame c fresh sends in
        let sent = c.transport_handler in
        (
          (sender_outgoing lib made sent).0,
          c',
          e,
          (frame_of-IsSent lib layout made sent (length made - 1) media epoch id
                (omega (arith, below.0, same)) (omega (arith, few, same))).0
              ∙ omega (arith, below.0, same),
          receiver_incoming-sender_outgoing lib layout made sent h at j order media
              (omega (arith, same)) epoch id later
              (record {
                in_epoch = w.in_epoch;
                awaited = w.awaited;
                in_sync = w.in_sync;
                buffer = w.buffer;
              })
              absent room (subst (λ (m : ℕ). All (λ i. i < m) (j ∷ order)) (sym same) below)
              (λ i under. covered i (omega (arith, same, under))),
        )
