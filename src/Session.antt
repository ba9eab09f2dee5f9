-- ===== src/Session.antt =====
-- webrtc/webrtc_session.cpp: the signaling messages, as lists of bytes, and what the session asks of
-- the peer connection when one comes in.
pub mod Signaling
pub mod Stats
pub mod Pacing
pub mod Udp
pub mod Life
use web_rtc_weak_network_vid.Common.{
  ℕ, zero, suc, Bool, true, false, not, ◌&&◌, Option, none, some, List, [], ◌∷◌, ◌++◌, ◌==◌,
  if◌then◌else◌,
}
use web_rtc_weak_network_vid.Text.{split, hex_encode, hex_decode}

pub data Role : Type 0 where
  sender : Role
  receiver : Role

-- The calls of `rtc::PeerConnection`; any of them may throw.
pub data PeerCall : Type 0 where
  set_remote_description : List ℕ → List ℕ → PeerCall
  set_local_description : PeerCall
  add_remote_candidate : List ℕ → List ℕ → PeerCall

abbrev pub same_text : List ℕ → List ℕ → Bool
same_text [] [] = true
same_text [] (d ∷ ds) = false
same_text (c ∷ cs) [] = false
same_text (c ∷ cs) (d ∷ ds) = c == d && same_text cs ds

-- '|', "DESC", "CAND" and "offer"
abbrev pub bar : ℕ
bar = 124

abbrev pub desc : List ℕ
desc = 68 ∷ 69 ∷ 83 ∷ 67 ∷ []

abbrev pub cand : List ℕ
cand = 67 ∷ 65 ∷ 78 ∷ 68 ∷ []

abbrev pub offer : List ℕ
offer = 111 ∷ 102 ∷ 102 ∷ 101 ∷ 114 ∷ []

-- The messages that the two callbacks of `configure_signaling_callbacks` send.
unfoldable pub description_message : List ℕ → List ℕ → List ℕ
description_message type sdp = desc ++ (bar ∷ (type ++ (bar ∷ hex_encode sdp)))

unfoldable pub candidate_message : List ℕ → List ℕ → List ℕ
candidate_message mid candidate = cand ++ (bar ∷ (hex_encode mid ++ (bar ∷ hex_encode candidate)))

abbrev pub is_receiver : Role → Bool
is_receiver sender = false
is_receiver receiver = true

-- The branches on the parts of a message. `throws` says which calls throw: what follows is not called.
unfoldable pub handle_parts : (PeerCall → Bool) → Role → List (List ℕ) → List PeerCall
handle_parts throws role [] = []
handle_parts throws role (kind ∷ []) = []
handle_parts throws role (kind ∷ one ∷ []) = []
handle_parts throws role (kind ∷ one ∷ two ∷ more) =
    if same_text kind desc
    then (let remote = set_remote_description (hex_decode two) one in
        if throws remote
        then remote ∷ []
        else if is_receiver role && same_text one offer
        then remote ∷ set_local_description ∷ []
        else remote ∷ [])
    else if same_text kind cand
    then add_remote_candidate (hex_decode two) (hex_decode one) ∷ []
    else []

-- The calls that are made, in their order.
unfoldable pub handle_signaling_message : (PeerCall → Bool) → Role → List ℕ → List PeerCall
unfolding handle_parts
handle_signaling_message throws role message = handle_parts throws role (split message bar)
