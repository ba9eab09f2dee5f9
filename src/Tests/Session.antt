-- ===== src/Tests/Session.antt =====
-- Signaling messages from one side to the other.
use web_rtc_weak_network_vid.Common.{
  ℕ, ◌≡◌, ◌≢◌, refl, sym, ap, Bool, true, false, none, some, List, [], ◌∷◌, arith, All,
}
use mathlib.Core.Bool.{false≢true}
use web_rtc_weak_network_vid.Common.Words.{IsByte}
use web_rtc_weak_network_vid.Session.{
  receiver, PeerCall, offer, description_message, candidate_message, handle_signaling_message,
}
use web_rtc_weak_network_vid.Session.Signaling.{NoBar}
use web_rtc_weak_network_vid.Session.Udp.{
  Turn, receive_datagrams, Carries, stopped, timeout, brings, Signal, description, candidate,
  message_of, messages_of, answers_of, IsSignal, receive_datagrams-messages_of,
}

abbrev never : PeerCall → Bool
never call = false

offer-NoBar : NoBar offer
unfolding NoBar
offer-NoBar = (
  λ e. omega (arith, e),
  (
    λ e. omega (arith, e),
    (λ e. omega (arith, e), (λ e. omega (arith, e), (λ e. omega (arith, e), tt))),
  ),
)

-- "v=0" with a byte above 127 behind it
abbrev sdp : List ℕ
sdp = 118 ∷ 61 ∷ 48 ∷ 200 ∷ []

sdp_bytes : All IsByte sdp
sdp_bytes = (omega arith, (omega arith, (omega arith, (omega arith, tt))))

abbrev signals : List Signal
signals = description offer sdp ∷ candidate [] sdp ∷ []

abbrev brought_by : List ℕ → Turn
brought_by message = record { stopping = false; ready = true; received = some message }

-- The two messages, with a wait between them, and a stop.
abbrev turns : List Turn
turns =
    brought_by (message_of (description offer sdp))
    ∷ record { stopping = false; ready = false; received = none }
    ∷ brought_by (message_of (candidate [] sdp))
    ∷ record { stopping = true; ready = false; received = none }
    ∷ []

turns-Carries : Carries turns (messages_of signals)
unfolding description_message candidate_message
turns-Carries = brings refl refl refl (timeout refl refl (brings refl refl refl (stopped refl)))

abbrev is_full : List ℕ → Bool
is_full [] = false
is_full (c ∷ bytes) = true

sdp_full : sdp ≢ []
sdp_full = λ e. absurd (false≢true (sym (ap is_full e)))

signals_valid : All (IsSignal never) signals
signals_valid = ((offer-NoBar, sdp_full, sdp_bytes, refl), ((tt, sdp_full, sdp_bytes), tt))

receive_datagrams-messages_of_example :
    receive_datagrams (some (handle_signaling_message never receiver)) turns
    ≡ answers_of receiver signals
receive_datagrams-messages_of_example =
    receive_datagrams-messages_of never receiver signals turns signals_valid turns-Carries
