-- ===== src/Transport/Nack.antt =====
-- video/video_transport_handler.cpp: `receiver_poll` and `send_nack`. `none` is an access out of
-- range.
pub mod Groups
pub mod Poll
use web_rtc_weak_network_vid.Common.{
  ℕ, zero, suc, ◌+◌, ◌-◌, ◌*◌, ◌%◌, ◌^◌, Bool, true, false, not, ◌&&◌, ◌||◌, Option, none, some,
  List, [], ◌∷◌, ◌++◌, ◌==◌, ltb, leb, if◌then◌else◌, bit_or, get_elem?,
}
use mathlib.Core.List.{reverse}
use web_rtc_weak_network_vid.Common.Words.{add16, sub16}
use web_rtc_weak_network_vid.Common.Maps.{NatMap}
use web_rtc_weak_network_vid.Rtc.{MessagePtr}
use web_rtc_weak_network_vid.Transport.State.{Handler, FrameAssembly, complete, inc64, is_present}
use web_rtc_weak_network_vid.Transport.Drain.{Effect, send_nack}

-- kNackDelayUs, kNackRetryUs
abbrev pub nack_delay_us : ℕ
nack_delay_us = 120000

abbrev pub nack_retry_us : ℕ
nack_retry_us = 50000

-- The loop over the slots from `i` on: the sequence numbers of the empty ones.
unfoldable pub missing_loop : ℕ → ℕ → FrameAssembly → Option (List ℕ)
missing_loop zero i frame = some []
missing_loop (suc rounds) i frame = elim (get_elem? frame.packets i) [
  | none ↦ none
  | some slot ↦ elim (missing_loop rounds (i + 1) frame) [
    | none ↦ none
    | some rest ↦ some (if is_present slot then rest else add16 frame.first_sequence i ∷ rest)
  ]
]

-- `NackGroup`: pid and blp.
abbrev pub Group : Type 0
Group = ℕ × ℕ

-- One round: `groups` begins with the back of the vector.
unfoldable pub group_step : List Group → ℕ → List Group
group_step [] sequence = (sequence, 0) ∷ []
group_step ((pid, blp) ∷ groups) sequence =
    if ltb 16 (sub16 sequence pid)
    then (sequence, 0) ∷ (pid, blp) ∷ groups
    else (pid, bit_or blp (2 ^ ((sub16 sequence pid + 65536 - 1) % 65536)) % 65536) ∷ groups

unfoldable pub group_loop : List Group → List ℕ → List Group
unfolding group_step
group_loop groups [] = groups
group_loop groups (sequence ∷ missing) = group_loop (group_step groups sequence) missing

-- The groups of the message, and whether one is sent.
unfoldable pub nack_groups : FrameAssembly → Option (List Group)
unfolding missing_loop group_loop
nack_groups frame = elim (missing_loop frame.packet_count 0 frame) [
  | none ↦ none
  | some missing ↦ some (reverse (group_loop [] missing))
]

abbrev pub nack_effects : List Group → List Effect
nack_effects [] = []
nack_effects (group ∷ groups) = send_nack (group ∷ groups) ∷ []

-- `due`
unfoldable pub nack_due : ℕ → ℕ → FrameAssembly → Bool
nack_due at_us timeout frame =
    (frame.marker_seen || leb nack_delay_us (at_us - frame.first_seen_us))
    && (frame.last_nack_us == 0 || leb nack_retry_us (at_us - frame.last_nack_us))
    && ltb (at_us - frame.first_seen_us) timeout

-- One entry: the frame after it, and the groups that are asked for, if any.
unfoldable pub poll_frame : ℕ → ℕ → FrameAssembly → Option (FrameAssembly × List Group)
unfolding nack_due nack_groups
poll_frame at_us timeout frame =
    if frame.packet_count == 0 || complete frame
    then some (frame, [])
    else if nack_due at_us timeout frame
    then elim (nack_groups frame) [
      | none ↦ none
      | some groups ↦ some (record frame { last_nack_us = at_us }, groups)
    ]
    else some (frame, [])

abbrev pub count_nack : List Group → ℕ → ℕ
count_nack [] n = n
count_nack (group ∷ groups) n = inc64 n

-- The loop over the buffer: the frames, `nack_packets`, and the messages.
unfoldable pub poll_loop :
    ℕ → ℕ → ℕ → NatMap FrameAssembly → Option (NatMap FrameAssembly × ℕ × List Effect)
poll_loop at_us timeout nacks [] = some ([], nacks, [])
poll_loop at_us timeout nacks ((k, frame) ∷ frames) = elim (poll_frame at_us timeout frame) [
  | none ↦ none
  | some (polled, groups) ↦ elim (poll_loop at_us timeout (count_nack groups nacks) frames) [
    | none ↦ none
    | some (rest, total, effects) ↦ some ((k, polled) ∷ rest, total, nack_effects groups ++ effects)
  ]
]

unfoldable pub receiver_poll : ℕ → Handler → Option (Handler × List Effect)
receiver_poll at_us h = elim (poll_loop at_us h.recovery_timeout_us h.stats.nack_packets h.frames) [
  | none ↦ none
  | some (frames, nacks, effects) ↦
      some
        (record h { frames = frames; stats = record (h.stats) { nack_packets = nacks } }, effects)
]
