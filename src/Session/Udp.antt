-- ===== src/Session/Udp.antt =====
-- signaling/udp_signaling.cpp: the receiving loop, over what `select` and `recvfrom` return, and the
-- session behind it.
use web_rtc_weak_network_vid.Common.{
  ℕ, ◌≡◌, ◌≢◌, ◌∙◌, refl, ap, Bool, true, false, ◌&&◌, Option, none, some, List, [], ◌∷◌, ◌++◌,
  if◌then◌else◌, All,
}
use web_rtc_weak_network_vid.Common.Words.{IsByte}
use web_rtc_weak_network_vid.Session.{
  Role, PeerCall, set_remote_description, set_local_description, add_remote_candidate, same_text,
  offer, is_receiver, description_message, candidate_message, handle_signaling_message,
}
use web_rtc_weak_network_vid.Session.Signaling.{
  NoBar, description_message-handled, candidate_message-handled,
}

-- What one turn of the loop sees: whether a stop is requested, whether `select` returns more than 0,
-- and the bytes that `recvfrom` writes, or none if it fails.
pub record Turn : Type 0 where
  pub stopping : Bool
  pub ready : Bool
  pub received : Option (List ℕ)

-- What the calls of the callback, if there is one, give for what was received.
abbrev pub handed : {A : Type 0} → Option (List ℕ → List A) → Option (List ℕ) → List A
handed on_message none = []
handed on_message (some []) = []
handed none (some (c ∷ bytes)) = []
handed (some on_message) (some (c ∷ bytes)) = on_message (c ∷ bytes)

-- `UdpSignaling::receive_loop`, for as many turns as there are.
unfoldable pub receive_datagrams : {A : Type 0} → Option (List ℕ → List A) → List Turn → List A
receive_datagrams on_message [] = []
receive_datagrams on_message (turn ∷ turns) =
    let rest = receive_datagrams on_message turns in
    if turn.stopping
    then []
    else if turn.ready
    then handed on_message turn.received ++ rest
    else rest

-- The turns bring these messages, with waits between them, and end with a stop or go on no more.
pub data Carries : List Turn → List (List ℕ) → Type 0 where
  ended : Carries [] []
  stopped : {turn : Turn} {turns : List Turn} → turn.stopping ≡ true → Carries (turn ∷ turns) []
  timeout :
      {turn : Turn} {turns : List Turn} {messages : List (List ℕ)}
      → turn.stopping ≡ false
      → turn.ready ≡ false
      → Carries turns messages
      → Carries (turn ∷ turns) messages
  brings :
      {turn : Turn} {turns : List Turn} {c : ℕ} {bytes : List ℕ} {messages : List (List ℕ)}
      → turn.stopping ≡ false
      → turn.ready ≡ true
      → turn.received ≡ some (c ∷ bytes)
      → Carries turns messages
      → Carries (turn ∷ turns) ((c ∷ bytes) ∷ messages)

abbrev answers : {A B : Type 0} → (A → List B) → List A → List B
answers answer [] = []
answers answer (a ∷ items) = answer a ++ answers answer items

receive_datagrams-Carries :
    {A : Type 0} (on_message : List ℕ → List A) {turns : List Turn} {messages : List (List ℕ)}
    → Carries turns messages
    → receive_datagrams (some on_message) turns ≡ answers on_message messages
unfolding receive_datagrams
receive_datagrams-Carries on_message ended = refl
receive_datagrams-Carries on_message (stopped stop) = rw stop refl
receive_datagrams-Carries on_message (timeout go wait more) =
    rw (go, wait) (receive_datagrams-Carries on_message more)
receive_datagrams-Carries on_message (brings {c = c} {bytes = bytes} go ready bytes_of more) =
    rw (go, ready, bytes_of)
      (ap (λ rest. on_message (c ∷ bytes) ++ rest) (receive_datagrams-Carries on_message more))

-- What one side sends.
pub data Signal : Type 0 where
  description : List ℕ → List ℕ → Signal
  candidate : List ℕ → List ℕ → Signal

abbrev pub message_of : Signal → List ℕ
message_of (description type sdp) = description_message type sdp
message_of (candidate mid text) = candidate_message mid text

abbrev pub answer_of : Role → Signal → List PeerCall
answer_of role (description type sdp) =
    set_remote_description sdp type
    ∷ (if is_receiver role && same_text type offer then set_local_description ∷ [] else [])
answer_of role (candidate mid text) = add_remote_candidate text mid ∷ []

-- A signal whose texts are bytes, and which the peer connection does not reject.
abbrev pub IsSignal : (PeerCall → Bool) → Signal → Type 0
IsSignal throws (description type sdp) =
    NoBar type × (sdp ≢ []) × All IsByte sdp × (throws (set_remote_description sdp type) ≡ false)
IsSignal throws (candidate mid text) = All IsByte mid × (text ≢ []) × All IsByte text

abbrev pub messages_of : List Signal → List (List ℕ)
messages_of [] = []
messages_of (signal ∷ signals) = message_of signal ∷ messages_of signals

abbrev pub answers_of : Role → List Signal → List PeerCall
answers_of role [] = []
answers_of role (signal ∷ signals) = answer_of role signal ++ answers_of role signals

module _ (throws : PeerCall → Bool) (role : Role) where
  message_of-handled :
      (signal : Signal)
      → IsSignal throws signal
      → handle_signaling_message throws role (message_of signal) ≡ answer_of role signal
  message_of-handled (description type []) (clean, full, bytes, fine) = absurd (full refl)
  message_of-handled (description type (c ∷ sdp)) (clean, full, bytes, fine) =
      description_message-handled throws role type c sdp clean bytes fine
  message_of-handled (candidate mid []) (mid_bytes, full, bytes) = absurd (full refl)
  message_of-handled (candidate mid (c ∷ text)) (mid_bytes, full, bytes) =
      candidate_message-handled throws role mid c text mid_bytes bytes

  answers_lem :
      (signals : List Signal)
      → All (IsSignal throws) signals
      → answers (handle_signaling_message throws role) (messages_of signals)
        ≡ answers_of role signals
  answers_lem [] valid = refl
  answers_lem (signal ∷ signals) valid =
      rw (message_of-handled signal valid.0, answers_lem signals valid.1) refl

  -- If the turns of the receiving loop bring the messages of a list of signals, with waits between
  -- them, and what is in the signals are texts of bytes, those of descriptions and candidates not
  -- empty and those of types without '|', and the peer connection accepts the descriptions, then
  -- the session makes the calls that answer the signals, in their order, and no others.
  pub receive_datagrams-messages_of :
      (signals : List Signal) (turns : List Turn)
      → All (IsSignal throws) signals
      → Carries turns (messages_of signals)
      → receive_datagrams (some (handle_signaling_message throws role)) turns
        ≡ answers_of role signals
  receive_datagrams-messages_of signals turns valid brought =
      receive_datagrams-Carries (handle_signaling_message throws role) brought
      ∙ answers_lem signals valid
