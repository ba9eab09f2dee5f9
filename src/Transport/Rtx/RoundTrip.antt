-- ===== src/Transport/Rtx/RoundTrip.antt =====
-- A packet that is retransmitted as RFC 4588 says, and what the receiver makes of it.
use web_rtc_weak_network_vid.Common.{
  ℕ, zero, suc, ◌+◌, ◌*◌, ◌/◌, ◌%◌, ◌<◌, ◌≤◌, ◌≡◌, ◌∙◌, refl, sym, ap, true, false, some, List, [],
  ◌∷◌, ◌++◌, append_assoc, arith, ◌==◌, ltb, length, length-append, take, drop, get_or, take-append,
  drop-append, get_or-append, Bool,
}
use web_rtc_weak_network_vid.Common.Words.{IsU32, be16, be32}
use web_rtc_weak_network_vid.Rtc.{RtpLib, HasRtpLayout, HasRtpFields, Message, is_rtp}
use web_rtc_weak_network_vid.Extension.{fixed_header_size}
use web_rtc_weak_network_vid.Transport.Rtx.{
  RtxHandler, rtx_payload_offset, original_packet, carried_packet,
}

-- An RTP packet: its first two bytes, its sequence number, the four bytes of its time stamp, its
-- source, what follows of the header, and the payload.
pub record Packet : Type 0 where
  pub first : ℕ
  pub second : ℕ
  pub sequence : ℕ
  pub stamp0 : ℕ
  pub stamp1 : ℕ
  pub stamp2 : ℕ
  pub stamp3 : ℕ
  pub source : ℕ
  pub more_header : List ℕ
  pub payload : List ℕ

abbrev pub header_bytes : Packet → List ℕ
header_bytes p =
    p.first
    ∷ p.second
    ∷ (be16 p.sequence
        ++ (p.stamp0 ∷ p.stamp1 ∷ p.stamp2 ∷ p.stamp3 ∷ (be32 p.source ++ p.more_header)))

abbrev pub packet_bytes : Packet → List ℕ
packet_bytes p = header_bytes p ++ p.payload

abbrev pub message_of : Packet → Bool → ℕ → Message
message_of p control stream = record { control = control; bytes = packet_bytes p; stream = stream }

-- RFC 4588: another payload type, number and source, and the original number before the payload.
abbrev pub retransmission : RtxHandler → ℕ → Packet → Packet
retransmission h number p = record p {
  second = p.second / 128 * 128 + h.rtx_payload_type;
  sequence = number;
  source = h.rtx_ssrc;
  payload = be16 p.sequence ++ p.payload;
}

-- Behind the fixed header stand as many sources as the first byte says, and an extension if it says so.
pub data HasHeader (p : Packet) : Type 0 where
  plain : p.first / 16 % 2 ≡ 0 → length p.more_header ≡ p.first % 16 * 4 → HasHeader p
  extended :
      (sources more : List ℕ) (a b c d : ℕ)
      → p.first / 16 % 2 ≡ 1
      → p.more_header ≡ sources ++ (a ∷ b ∷ c ∷ d ∷ more)
      → length sources ≡ p.first % 16 * 4
      → length more ≡ (c * 256 + d) * 4
      → HasHeader p

length-header_bytes : (p : Packet) → length (header_bytes p) ≡ 12 + length p.more_header
length-header_bytes p = omega arith

drop_nil : (k : ℕ) → drop {A = ℕ} k [] ≡ []
drop_nil zero = refl
drop_nil (suc k) = refl

drop_further : (n k : ℕ) (bytes : List ℕ) → drop (n + k) bytes ≡ drop k (drop n bytes)
drop_further zero k bytes = let e : 0 + k ≡ k = omega arith in rw e refl
drop_further (suc n) k [] = let e : suc n + k ≡ suc (n + k) = omega arith in rw e (sym (drop_nil k))
drop_further (suc n) k (b ∷ bytes) =
    let e : suc n + k ≡ suc (n + k) = omega arith in rw e (drop_further n k bytes)

drop_header :
    (p : Packet) (n : ℕ) (rest : List ℕ)
    → drop (12 + n) (header_bytes p ++ rest) ≡ drop n (p.more_header ++ rest)
drop_header p n rest = drop_further 12 n (header_bytes p ++ rest)

module _ (lib : RtpLib) (layout : HasRtpLayout lib) (h : RtxHandler) where
  fixed_header_size_lem :
      (p : Packet) → fixed_header_size lib (packet_bytes p) ≡ 12 + p.first % 16 * 4
  unfolding fixed_header_size
  fixed_header_size_lem p = rw layout.csrc_bits refl

  offset_lem :
      (p : Packet)
      → HasHeader p
      → rtx_payload_offset lib h (packet_bytes p) ≡ some (length (header_bytes p))
  unfolding rtx_payload_offset
  offset_lem p (plain bit size) =
      let without : lib.extension (packet_bytes p) ≡ false =
        layout.extension_bit _ _ ∙ ground (arith, bit) in
      rw (without, rtx_payload_offset) (ap some (fixed_header_size_lem p ∙ omega (arith, size)))
  offset_lem p (extended sources more a b c d bit shape size words) =
      let with_it : lib.extension (packet_bytes p) ≡ true =
        layout.extension_bit _ _ ∙ ground (arith, bit) in
      let fixed : fixed_header_size lib (packet_bytes p) ≡ 12 + length sources =
        fixed_header_size_lem p ∙ omega (arith, size) in
      let head : drop (12 + length sources) (packet_bytes p) ≡ a ∷ b ∷ c ∷ d ∷ (more ++ p.payload) =
        drop_header p (length sources) p.payload
        ∙ ap (λ (l : List ℕ). drop (length sources) (l ++ p.payload)) shape
        ∙ ap (drop (length sources)) (append_assoc sources (a ∷ b ∷ c ∷ d ∷ more) p.payload)
        ∙ drop-append (length sources) sources (a ∷ b ∷ c ∷ d ∷ (more ++ p.payload)) refl in
      let long : length p.more_header ≡ length sources + (4 + length more) =
        ap length shape ∙ length-append sources (a ∷ b ∷ c ∷ d ∷ more) ∙ omega arith in
      let there : ltb (length (packet_bytes p)) (12 + length sources + 4) ≡ false =
        ground (arith, long, length-append p.more_header p.payload) in
      rw
        (
          with_it, fixed, layout.extension_header_size, there, head, layout.length_bytes,
          rtx_payload_offset,
        )
        (ap some (omega (arith, long, words)))

  fixed_below :
      (p : Packet) → HasHeader p → fixed_header_size lib (packet_bytes p) ≤ length (packet_bytes p)
  fixed_below p (plain bit size) =
      omega (arith, fixed_header_size_lem p, size, length-append p.more_header p.payload)
  fixed_below p (extended sources more a b c d bit shape size words) = omega (
    arith,
    fixed_header_size_lem p,
    size,
    ap length shape,
    length-append sources (a ∷ b ∷ c ∷ d ∷ more),
    length-append p.more_header p.payload,
  )

  original_lem :
      (header payload : List ℕ) (control : Bool) (stream hi lo : ℕ)
      → original_packet lib h
          (record { control = control; bytes = header ++ (hi ∷ lo ∷ payload); stream = stream })
          (length header)
        ≡ record {
          control = control;
          bytes = lib.set_ssrc h.primary_ssrc (
              lib.set_seq_number
                (hi * 256 + lo)
                (lib.set_payload_type h.primary_payload_type (header ++ payload)));
          stream = h.primary_ssrc;
        }
  unfolding original_packet
  original_lem header payload control stream hi lo =
      let rest : List ℕ = hi ∷ lo ∷ payload in
      let zeroth : get_or (header ++ rest) (length header) 0 ≡ hi =
        ap (λ (i : ℕ). get_or (header ++ rest) i 0) (omega arith) ∙ get_or-append header rest 0 0 in
      let before : take (length header) (header ++ rest) ≡ header =
        take-append (length header) header rest refl in
      let behind : drop (length header + 2) (header ++ rest) ≡ payload =
        drop_further (length header) 2 (header ++ rest)
        ∙ ap (drop 2) (drop-append (length header) header rest refl) in
      rw (zeroth, get_or-append header rest 1 0, before, behind) refl

  retransmission-HasHeader :
      (p : Packet) (number : ℕ) → HasHeader p → HasHeader (retransmission h number p)
  retransmission-HasHeader p number (plain bit size) = plain bit size
  retransmission-HasHeader p number (extended sources more a b c d bit shape size words) =
      extended sources more a b c d bit shape size words

  module _ (fields : HasRtpFields lib) where
    -- The fields that the handler writes are those of the packet that was sent.
    fields_lem :
        (p : Packet) (number : ℕ)
        → h.rtx_payload_type < 128
        → p.second % 128 ≡ h.primary_payload_type
        → p.source ≡ h.primary_ssrc
        → lib.set_ssrc h.primary_ssrc (
            lib.set_seq_number (p.sequence / 256 % 256 * 256 + p.sequence % 256) (
              lib.set_payload_type h.primary_payload_type
                (header_bytes (retransmission h number p) ++ p.payload)))
          ≡ packet_bytes p
    fields_lem p number small type source =
        let second : (p.second / 128 * 128 + h.rtx_payload_type) / 128 * 128
              + h.primary_payload_type % 128
            ≡ p.second =
          omega (arith, small, type) in
        let high : (p.sequence / 256 % 256 * 256 + p.sequence % 256) / 256 % 256
            ≡ p.sequence / 256 % 256 =
          omega arith in
        let low : (p.sequence / 256 % 256 * 256 + p.sequence % 256) % 256 ≡ p.sequence % 256 =
          omega arith in
        rw (fields.payload_type_written, fields.sequence_written, fields.ssrc_written)
          (rw (second, high, low, source) refl)

    -- Under the layout of RTP headers: if a packet has a whole header, the handler's payload type and
    -- source, and the payload type of retransmissions is below 128 and their source fits 32 bits, then
    -- from the retransmission of the packet that RFC 4588 describes, with any number of its own, if
    -- it is taken for RTP, the handler makes the packet as it was, on the stream of its source.
    pub carried_packet-retransmission :
        (p : Packet) (number : ℕ) (control : Bool) (stream : ℕ)
        → HasHeader p
        → h.rtx_payload_type < 128
        → IsU32 h.rtx_ssrc
        → p.second % 128 ≡ h.primary_payload_type
        → p.source ≡ h.primary_ssrc
        → is_rtp lib (some (message_of (retransmission h number p) control stream)) ≡ true
        → carried_packet lib h (some (message_of (retransmission h number p) control stream))
          ≡ some (message_of p control h.primary_ssrc)
    unfolding carried_packet
    carried_packet-retransmission p number control stream whole small wide type source rtp =
        let r = retransmission h number p in
        let header = retransmission-HasHeader p number whole in
        let of_type : lib.payload_type (packet_bytes r) ≡ h.rtx_payload_type =
          fields.payload_type_bits _ _ _ ∙ omega (arith, small) in
        let of_source : lib.ssrc (packet_bytes r) ≡ h.rtx_ssrc =
          fields.ssrc_bytes _ _ _ _ _ _ _ _ _ _ _ _ _ ∙ omega (arith, wide) in
        let same : (lib.payload_type (packet_bytes r) == h.rtx_payload_type) ≡ true =
          ground (arith, of_type) in
        let same_source : (lib.ssrc (packet_bytes r) == h.rtx_ssrc) ≡ true =
          ground (arith, of_source) in
        let long : ltb (length (packet_bytes r)) (fixed_header_size lib (packet_bytes r)) ≡ false =
          ground (arith, fixed_below r header) in
        let filled : ltb (length (packet_bytes r)) (length (header_bytes r) + 2) ≡ false =
          ground (arith, length-append p.more_header r.payload) in
        rw (rtp, same, same_source, long, offset_lem r header, filled, carried_packet)
          (ap some (
            original_lem (header_bytes r) p.payload control stream (p.sequence / 256 % 256)
              (p.sequence % 256)
            ∙ ap
                (λ (bytes : List ℕ). record {
                  control = control;
                  bytes = bytes;
                  stream = h.primary_ssrc;
                })
                (fields_lem p number small type source)))
