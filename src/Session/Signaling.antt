-- ===== src/Session/Signaling.antt =====
-- The signaling messages of one side, handled by the other.
use web_rtc_weak_network_vid.Common.{
  ℕ, ◌/◌, ◌%◌, ◌≡◌, ◌≢◌, ◌∙◌, refl, ap, sym, Bool, true, false, ◌&&◌, List, [], ◌∷◌, ◌++◌, ◌==◌,
  ◌<◌, if◌then◌else◌, All, arith, append-nil, append_assoc,
}
use web_rtc_weak_network_vid.Common.Words.{IsByte}
use web_rtc_weak_network_vid.Text.{split, split_loop, hex_digit, hex_encode}
use web_rtc_weak_network_vid.Text.Hex.{hex_decode-hex_encode}
use web_rtc_weak_network_vid.Session.{
  Role, PeerCall, set_remote_description, set_local_description, add_remote_candidate, same_text,
  offer, bar, is_receiver, description_message, candidate_message, handle_parts,
  handle_signaling_message,
}

-- No byte is '|'.
unfoldable pub NoBar : List ℕ → Type 0
NoBar = All (λ c. c ≢ bar)

hex_digit-NoBar : (digit : ℕ) → digit < 16 → hex_digit digit ≢ bar
hex_digit-NoBar digit h = ground arith

hex_encode-NoBar : (bytes : List ℕ) → All IsByte bytes → NoBar (hex_encode bytes)
unfolding NoBar hex_encode
hex_encode-NoBar [] h = h
hex_encode-NoBar (c ∷ bytes) h = (
  hex_digit-NoBar (c / 16) (omega (arith, h.0)),
  (hex_digit-NoBar (c % 16) (omega arith), hex_encode-NoBar bytes h.1),
)

split_item :
    (item part text : List ℕ)
    → NoBar part
    → split_loop bar (part ++ (bar ∷ text)) item ≡ (item ++ part) ∷ split_loop bar text []
unfolding NoBar split_loop
split_item item [] text h = ap (λ i. i ∷ split_loop bar text []) (sym (append-nil item))
split_item item (c ∷ part) text h =
    let other : (c == bar) ≡ false = ground (arith, h.0) in
    rw other (
      split_item (item ++ (c ∷ [])) part text h.1
      ∙ ap (λ i. i ∷ split_loop bar text []) (append_assoc item (c ∷ []) part))

split_last :
    (c : ℕ) (item part : List ℕ)
    → NoBar part
    → split_loop bar part (c ∷ item) ≡ (c ∷ (item ++ part)) ∷ []
unfolding NoBar split_loop
split_last c item [] h = ap (λ i. (c ∷ i) ∷ []) (sym (append-nil item))
split_last c item (d ∷ part) h =
    let other : (d == bar) ≡ false = ground (arith, h.0) in
    rw other (
      split_last c (item ++ (d ∷ [])) part h.1
      ∙ ap (λ i. (c ∷ i) ∷ []) (append_assoc item (d ∷ []) part))

split_nonempty :
    (d : ℕ) (part : List ℕ) → NoBar (d ∷ part) → split_loop bar (d ∷ part) [] ≡ (d ∷ part) ∷ []
unfolding NoBar split_loop
split_nonempty d part h =
    let other : (d == bar) ≡ false = ground (arith, h.0) in rw other (split_last d [] part h.1)

split_hex :
    (c : ℕ) (bytes : List ℕ)
    → All IsByte (c ∷ bytes)
    → split_loop bar (hex_encode (c ∷ bytes)) [] ≡ hex_encode (c ∷ bytes) ∷ []
unfolding hex_encode
split_hex c bytes h =
    split_nonempty (hex_digit (c / 16)) (hex_digit (c % 16) ∷ hex_encode bytes)
      (hex_encode-NoBar (c ∷ bytes) h)

same_text_self : (text : List ℕ) → same_text text text ≡ true
same_text_self [] = refl
same_text_self (c ∷ text) = ground (arith, same_text_self text)

-- If the type holds no '|', the description is a text of bytes that is not empty, and setting it
-- does not throw, then the description that one side sends makes the other set that description
-- with that type, and then its own one if it is the receiver and the type is "offer".
pub description_message-handled :
    (throws : PeerCall → Bool) (role : Role) (type : List ℕ) (c : ℕ) (sdp : List ℕ)
    → NoBar type
    → All IsByte (c ∷ sdp)
    → throws (set_remote_description (c ∷ sdp) type) ≡ false
    → handle_signaling_message throws role (description_message type (c ∷ sdp))
      ≡ set_remote_description (c ∷ sdp) type
        ∷ (if is_receiver role && same_text type offer then set_local_description ∷ [] else [])
unfolding handle_signaling_message description_message handle_parts split
description_message-handled throws role type c sdp clean bytes fine =
    rw
      (
        split_item [] type (hex_encode (c ∷ sdp)) clean,
        split_hex c sdp bytes,
        hex_decode-hex_encode (c ∷ sdp) bytes,
        fine,
      )
      (ground arith)

-- If the media id is a text of bytes, and the candidate one that is not empty, then the candidate
-- that one side sends makes the other add that candidate with that media id, and do nothing else.
pub candidate_message-handled :
    (throws : PeerCall → Bool) (role : Role) (mid : List ℕ) (c : ℕ) (candidate : List ℕ)
    → All IsByte mid
    → All IsByte (c ∷ candidate)
    → handle_signaling_message throws role (candidate_message mid (c ∷ candidate))
      ≡ add_remote_candidate (c ∷ candidate) mid ∷ []
unfolding handle_signaling_message candidate_message handle_parts split
candidate_message-handled throws role mid c candidate mid_bytes bytes =
    rw
      (
        split_item [] (hex_encode mid) (hex_encode (c ∷ candidate))
            (hex_encode-NoBar mid mid_bytes),
        split_hex c candidate bytes,
        hex_decode-hex_encode (c ∷ candidate) bytes,
        hex_decode-hex_encode mid mid_bytes,
      )
      refl
