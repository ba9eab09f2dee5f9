-- ===== src/Statistics/Handler/Walk.antt =====
-- The handler's walk over the RTCP packets of a message ends, and its calls return.
use web_rtc_weak_network_vid.Common.{
  ℕ, zero, suc, ◌+◌, ◌≡◌, ◌∙◌, ◌<◌, refl, Bool, false, not, ◌||◌, Option, none, some, List, [], ◌∷◌,
  arith, length, drop, ltb, length-drop, inl, inr, Bool-cases, ◌⊎◌, ap, sym,
}
use web_rtc_weak_network_vid.Rtc.{RtpLib, MessagePtr}
use web_rtc_weak_network_vid.Quality.Doubles.{Doubles}
use web_rtc_weak_network_vid.Quality.Estimator.{on_rtcp}
use web_rtc_weak_network_vid.Statistics.Feedback.{
  StatisticsDirection, StatisticsHandler, observe_twcc_extension, maybe_send_twcc_feedback,
}
use web_rtc_weak_network_vid.Statistics.Feedback.Sending.{maybe_send_returns}
use web_rtc_weak_network_vid.Statistics.Handler.{
  ReportLib, Noted, note, observe_rtp, observe_packet, observe_rtcp_packet, observe_rtcp,
  observe_incoming, incoming_loop, finish_incoming, incoming,
}

direction_cases :
    (d : StatisticsDirection)
    → (d ≡ StatisticsDirection.sender) ⊎ (d ≡ StatisticsDirection.receiver)
direction_cases StatisticsDirection.sender = inl refl
direction_cases StatisticsDirection.receiver = inr refl

pub finish_sender :
    (d : StatisticsDirection) (at_us : ℕ) (h : StatisticsHandler)
    → d ≡ StatisticsDirection.sender
    → finish_incoming d at_us h ≡ some (h, none)
unfolding finish_incoming
finish_sender d at_us h sends = rw sends refl

finish_receiver :
    (d : StatisticsDirection) (at_us : ℕ) (h : StatisticsHandler)
    → d ≡ StatisticsDirection.receiver
    → finish_incoming d at_us h ≡ maybe_send_twcc_feedback at_us h
unfolding finish_incoming
finish_receiver d at_us h receives = rw receives refl

module _ {D : Type 0} (double : Doubles D) (lib : RtpLib) (reports : ReportLib) (clock : ℕ → ℕ)
    (header : 0 < lib.sizeof_rtcp_header) where
  packets_end :
      (fuel : ℕ) (rest : List ℕ) (s : Noted D)
      → length rest < fuel
      → (s' : Noted D) × (observe_rtcp_packet double lib reports clock fuel rest s ≡ some s')
  unfolding observe_rtcp_packet
  packets_end zero rest s enough = absurd (omega arith)
  packets_end (suc fuel) rest s enough =
      let size = lib.length_in_bytes rest in
      elim (Bool-cases (ltb (length rest) lib.sizeof_rtcp_header)) [
        | inl short ↦ (s, rw short)
        | inr long ↦ elim (Bool-cases (ltb size lib.sizeof_rtcp_header || ltb (length rest) size)) [
          | inl broken ↦ (s, rw (long, broken))
          | inr whole ↦
              let smaller : length (drop size rest) < fuel =
                ground (arith, length-drop size rest) in
              let (s', e) =
                packets_end fuel (drop size rest)
                  (observe_packet double lib reports clock rest size s) smaller in
              (s', rw (long, whole) e)
        ]
      ]

  rtcp_ends :
      (message : MessagePtr) (sent : Bool) (s : Noted D)
      → (s' : Noted D) × (observe_rtcp double lib reports clock message sent s ≡ some s')
  unfolding observe_rtcp
  rtcp_ends none sent s = (s, refl)
  rtcp_ends (some message) sent s =
      let bytes = message.bytes in
      let noted = note clock 2 (λ at. on_rtcp at (length bytes)) s in
      elim (Bool-cases (ltb (length bytes) lib.sizeof_rtcp_header || not (lib.is_rtcp bytes))) [
        | inl skipped ↦ (s, rw skipped)
        | inr walked ↦ elim (Bool-cases sent) [
          | inl out ↦ (noted, rw (walked, out))
          | inr in_ ↦
              let (s', e) = packets_end (suc (length bytes)) bytes noted (omega arith) in
              (s', rw (walked, in_) e)
        ]
      ]

  observe_incoming_returns :
      (d : StatisticsDirection) (arrival : ℕ) (message : MessagePtr) (h : StatisticsHandler)
      (s : Noted D)
      → (h' : StatisticsHandler) × (s' : Noted D) × (observe_incoming double lib reports clock d
            arrival message h s
          ≡ some (h', s'))
        × (((d ≡ StatisticsDirection.sender) × (h' ≡ h)) ⊎ (d ≡ StatisticsDirection.receiver))
  unfolding observe_incoming
  observe_incoming_returns StatisticsDirection.sender arrival message h s =
      let (noted, e) = rtcp_ends message false s in
      (h, noted, rw (e, observe_incoming) refl, inl (refl, refl))
  observe_incoming_returns StatisticsDirection.receiver arrival message h s = (
    observe_twcc_extension lib arrival message h,
    observe_rtp double lib reports clock message false s,
    refl,
    inr refl,
  )

  incoming_loop_returns :
      (messages : List MessagePtr) (arrivals : ℕ → ℕ) (h : StatisticsHandler) (s : Noted D)
      → (h' : StatisticsHandler) × (s' : Noted D) × (incoming_loop double lib reports clock arrivals
            messages h s
          ≡ some (h', s'))
        × (((h.direction ≡ StatisticsDirection.sender) × (h' ≡ h))
            ⊎ (h.direction ≡ StatisticsDirection.receiver))
  unfolding incoming_loop
  incoming_loop_returns [] arrivals h s = (
    h,
    s,
    refl,
    elim (direction_cases h.direction) [
      | inl sends ↦ inl (sends, refl)
      | inr receives ↦ inr receives
    ],
  )
  incoming_loop_returns (message ∷ messages) arrivals h s =
      let (h₁, s₁, first, step) = observe_incoming_returns h.direction (arrivals 0) message h s in
      let (h₂, s₂, rest, kept) = incoming_loop_returns messages (λ i. arrivals (i + 1)) h₁ s₁ in
      (
        h₂,
        s₂,
        rw (first, incoming_loop) rest,
        elim step [
          | inl (sends, same) ↦ elim kept [
            | inl (sends', same') ↦ inl (sends, same' ∙ same)
            | inr receives ↦ inr (ap (λ (x : StatisticsHandler). x.direction) (sym same) ∙ receives)
          ]
          | inr receives ↦ inr receives
        ],
      )

  -- If the RTCP header has a size, then whatever messages come in, the statistics handler returns;
  -- on the sender's side it keeps its state and sends nothing.
  pub incoming_returns :
      (messages : List MessagePtr) (arrivals : ℕ → ℕ) (at_us : ℕ) (h : StatisticsHandler)
      (s : Noted D)
      → (h' : StatisticsHandler) × (s' : Noted D) × (sent : Option (List ℕ)) × (incoming double lib
            reports clock arrivals at_us messages h s
          ≡ some (h', s', sent))
        × (((h.direction ≡ StatisticsDirection.sender) × (h' ≡ h) × (sent ≡ none))
            ⊎ (h.direction ≡ StatisticsDirection.receiver))
  unfolding incoming
  incoming_returns messages arrivals at_us h s =
      let (h₁, s₁, same, kept) = incoming_loop_returns messages arrivals h s in
      elim kept [
        | inl (sends, e) ↦ (
          h₁,
          s₁,
          none,
          rw (same, incoming, finish_sender h.direction at_us h₁ sends) refl,
          inl (sends, e, refl),
        )
        | inr receives ↦
            let (h₂, sent, feedback) = maybe_send_returns at_us h₁ in
            (
              h₂,
              s₁,
              sent,
              rw (same, incoming, finish_receiver h.direction at_us h₁ receives, feedback) refl,
              inr receives,
            )
      ]
