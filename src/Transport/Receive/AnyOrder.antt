-- ===== src/Transport/Receive/AnyOrder.antt =====
-- A frame whose packets come in any order, and some of them more than once.
use web_rtc_weak_network_vid.Common.{
  ℕ, zero, suc, ◌+◌, ◌<◌, ◌≡◌, ◌∙◌, refl, ap, true, inl, inr, Option, none, some, List, [], ◌∷◌,
  ◌++◌, arith, ◌==◌, length, get_elem?, get_or, All, Bool-cases,
}
use web_rtc_weak_network_vid.Common.Maps.{NatMap, find}
use web_rtc_weak_network_vid.Rtc.{RtpLib, Message, MessagePtr, is_rtp}
use web_rtc_weak_network_vid.Transport.Metadata.{read_frame_metadata}
use web_rtc_weak_network_vid.Transport.State.{
  Handler, FrameAssembly, complete, all_present, max_buffered_frames,
}
use web_rtc_weak_network_vid.Transport.Gate.{process_receiver_packet}
use web_rtc_weak_network_vid.Transport.Gate.Buffer.{IsBuffer}
use web_rtc_weak_network_vid.Transport.Gate.Gathering.{occurs, mask_all}
use web_rtc_weak_network_vid.Transport.Gate.Gathering.Steps.{
  Frame, expected, Awaits, IsPartial, gather_first, gather_more,
}
use web_rtc_weak_network_vid.Transport.Drain.{Effect, inc32, drain_complete_frames}
use web_rtc_weak_network_vid.Transport.Drain.Synchronized.{
  Delivers, packets_of, drain_synchronized_first,
}
use web_rtc_weak_network_vid.Transport.Nack.Poll.{receiver_poll-IsBuffer}
use web_rtc_weak_network_vid.Transport.Receive.{Clock, receive_loop, receiver_incoming}

-- The messages with these numbers, in this order.
abbrev pub arrivals : List MessagePtr → List ℕ → List MessagePtr
arrivals packets [] = []
arrivals packets (j ∷ order) = get_or packets j none ∷ arrivals packets order

-- The numbers that have come, the last first.
abbrev arrived : List ℕ → List ℕ → List ℕ
arrived [] got = got
arrived (j ∷ order) got = arrived order (j ∷ got)

arrived_keeps :
    (i : ℕ) (order got : List ℕ) → occurs i got ≡ true → occurs i (arrived order got) ≡ true
arrived_keeps i [] got e = e
arrived_keeps i (j ∷ order) got e = arrived_keeps i order (j ∷ got) (ground arith)

occurs-arrived :
    (i : ℕ) (order got : List ℕ) → occurs i order ≡ true → occurs i (arrived order got) ≡ true
occurs-arrived i [] got e = ground arith
occurs-arrived i (j ∷ order) got e = elim (Bool-cases (i == j)) [
  | inl here ↦ arrived_keeps i order (j ∷ got) (ground arith)
  | inr other ↦ occurs-arrived i order (j ∷ got) (ground arith)
]

-- Each packet is there, is RTP, and says which of the frame's it is.
abbrev pub IsSent : RtpLib → Frame → Type 0
IsSent lib f =
    (j : ℕ)
    → j < length f.packets
    → (message : Message) × (get_elem? f.packets j ≡ some (some message))
      × (is_rtp lib (some message) ≡ true)
      × (read_frame_metadata lib (some message) ≡ some (expected f j))

get_or-get_elem? :
    (packets : List MessagePtr) (j : ℕ) (packet : MessagePtr)
    → get_elem? packets j ≡ some packet
    → get_or packets j none ≡ packet
get_or-get_elem? [] j packet e = ground (arith, e)
get_or-get_elem? (first ∷ packets) zero packet e = ground (arith, e)
get_or-get_elem? (first ∷ packets) (suc j) packet e = get_or-get_elem? packets j packet e

all_present_lem :
    (packets : List MessagePtr)
    → ((j : ℕ)
        → j < length packets
        → (message : Message) × (get_elem? packets j ≡ some (some message)))
    → all_present packets ≡ true
all_present_lem [] there = refl
all_present_lem (none ∷ packets) there =
    let (message, e) = there 0 (omega arith) in absurd (ground (arith, e))
all_present_lem (some message ∷ packets) there =
    all_present_lem packets (λ j below. there (suc j) (omega arith))

Delivers-complete :
    (buffer : NatMap FrameAssembly) (next : ℕ) (frames : List FrameAssembly)
    → Delivers buffer next frames
    → All (λ g. complete g ≡ true) frames
Delivers-complete buffer next [] d = tt
Delivers-complete buffer next (frame ∷ frames) (e, c, d) =
    (c, Delivers-complete buffer (inc32 next) frames d)

module _ (lib : RtpLib) (f : Frame) (sent : IsSent lib f) where
  -- What the loop over the messages leaves.
  abbrev Gathered : List ℕ → Option (Handler × List MessagePtr) → Type 0
  Gathered got result =
      (h' : Handler) × (frame : FrameAssembly) × (result ≡ some (h', []))
      × Awaits lib f h'
      × (find f.frame_id h'.frames ≡ some frame)
      × IsPartial f got frame

  receive_one :
      (clock : ℕ → ℕ → ℕ) (i j : ℕ) (order : List ℕ) (h h' : Handler)
      → j < length f.packets
      → process_receiver_packet lib (clock i) (get_or f.packets j none) h ≡ some h'
      → receive_loop lib clock i (arrivals f.packets (j ∷ order)) h
        ≡ receive_loop lib clock (i + 1) (arrivals f.packets order) h'
  unfolding receive_loop
  receive_one clock i j order h h' below e =
      let (message, there, rtp, reads) = sent j below in
      let rtp' : is_rtp lib (get_or f.packets j none) ≡ true =
        ap (is_rtp lib) (get_or-get_elem? f.packets j (some message) there) ∙ rtp in
      rw (rtp', e, receive_loop) refl

  gather_rest :
      (clock : ℕ → ℕ → ℕ) (i : ℕ) (order got : List ℕ) (frame : FrameAssembly) (h : Handler)
      → ((i k : ℕ) → 0 < clock i k)
      → All (λ j. j < length f.packets) order
      → Awaits lib f h
      → find f.frame_id h.frames ≡ some frame
      → IsPartial f got frame
      → Gathered (arrived order got) (receive_loop lib clock i (arrivals f.packets order) h)
  unfolding receive_loop
  gather_rest clock i [] got frame h later below w there v = (h, frame, refl, w, there, v)
  gather_rest clock i (j ∷ order) got frame h later below w there v =
      let (message, at_slot, rtp, reads) = sent j below.0 in
      let (h', stored, e, w', there', v') =
        gather_more lib f (clock i) (later i) j message reads at_slot below.0 got frame h w there
          v in
      let (last, whole, e', w'', there'', v'') =
        gather_rest clock (i + 1) order (j ∷ got) stored h' later below.1 w' there' v' in
      (
        last,
        whole,
        receive_one clock i j order h h' below.0 (
              ap (λ (p : MessagePtr). process_receiver_packet lib (clock i) p h)
                (get_or-get_elem? f.packets j (some message) at_slot)
              ∙ e)
            ∙ e',
        w'',
        there'',
        v'',
      )

  -- A frame of which all packets are there.
  IsPartial-complete :
      (got : List ℕ) (frame : FrameAssembly)
      → 0 < length f.packets
      → ((j : ℕ) → j < length f.packets → occurs j got ≡ true)
      → IsPartial f got frame
      → (frame.packets ≡ f.packets) × (complete frame ≡ true)
  unfolding complete
  IsPartial-complete got frame some_packets covered v =
      let whole =
        v.slots
        ∙ mask_all got 0 f.packets
            (λ j below. let z : 0 + j ≡ j = omega arith in rw z (covered j below)) in
      let present =
        all_present_lem f.packets
          (λ j below. let (message, there, _, _) = sent j below in (message, there)) in
      (whole, rw whole (ground (arith, v.own_count, present)))

  drain_whole :
      (at_us : ℕ) (h : Handler) (frame : FrameAssembly)
      → Awaits lib f h
      → find f.frame_id h.frames ≡ some frame
      → frame.packets ≡ f.packets
      → complete frame ≡ true
      → (h' : Handler) × (rest : List FrameAssembly) × (drain_complete_frames at_us h
          ≡ some (h', f.packets ++ packets_of rest, []))
        × Delivers h.frames (inc32 f.frame_id) rest
        × IsBuffer lib h'
  unfolding drain_complete_frames
  drain_whole at_us h frame w there same whole =
      let (h', rest, e, delivers, v) =
        drain_synchronized_first lib at_us h f.frame_id frame w.awaited w.buffer there whole in
      (h', rest, ground (arith, w.in_sync, e, same), delivers, v)

  pub receive_any_order :
      (clock : Clock) (j : ℕ) (order : List ℕ) (h : Handler)
      → ((i k : ℕ) → 0 < clock.packet i k)
      → Awaits lib f h
      → find f.frame_id h.frames ≡ none
      → length h.frames < max_buffered_frames
      → All (λ j. j < length f.packets) (j ∷ order)
      → ((k : ℕ) → k < length f.packets → occurs k (j ∷ order) ≡ true)
      → (h' : Handler) × (rest : List FrameAssembly) × (effects : List Effect) × (receiver_incoming
            lib clock
            (arrivals f.packets (j ∷ order))
            h
          ≡ some (h', f.packets ++ packets_of rest, effects))
        × All (λ g. complete g ≡ true) rest
        × IsBuffer lib h'
  unfolding receiver_incoming
  receive_any_order clock j order h later w absent room below covered =
      let start = record h { receiver_send = true } in
      let (message, at_slot, rtp, reads) = sent j below.0 in
      let w₀ : Awaits lib f start = record {
        in_epoch = w.in_epoch;
        awaited = w.awaited;
        in_sync = w.in_sync;
        buffer = w.buffer;
      } in
      let (h₁, stored, e₁, w₁, there₁, v₁) =
        gather_first lib f (clock.packet 0) (later 0) j message reads at_slot below.0 start w₀
          absent room in
      let (h₂, frame, e₂, w₂, there₂, v₂) =
        gather_rest clock.packet 1 order (j ∷ []) stored h₁ later below.1 w₁ there₁ v₁ in
      let (same, whole) =
        IsPartial-complete (arrived order (j ∷ [])) frame (omega (arith, below.0))
          (λ k under. occurs-arrived k (j ∷ order) [] (covered k under)) v₂ in
      let (h₃, rest, e₃, delivers, u) = drain_whole clock.drain_us h₂ frame w₂ there₂ same whole in
      let (h₄, nacks, e₄, u₄) = receiver_poll-IsBuffer lib clock.poll_us h₃ u in
      let received : receive_loop lib clock.packet 0 (arrivals f.packets (j ∷ order)) start
          ≡ some (h₂, []) =
        receive_one clock.packet 0 j order start h₁ below.0 (
          ap (λ (p : MessagePtr). process_receiver_packet lib (clock.packet 0) p start)
            (get_or-get_elem? f.packets j (some message) at_slot)
          ∙ e₁)
        ∙ e₂ in
      (
        h₄,
        rest,
        nacks,
        ground (arith, received, e₃, e₄),
        Delivers-complete h₂.frames (inc32 f.frame_id) rest delivers,
        u₄,
      )
