-- ===== src/Extension/Rewrite.antt =====
-- Taking the extension of a packet apart, writing a new one, and looking an element up.
use web_rtc_weak_network_vid.Common.{
  ℕ, zero, suc, ◌+◌, ◌-◌, ◌*◌, ◌/◌, ◌%◌, ◌≤◌, ◌<◌, ◌≡◌, sym, ◌∙◌, true, false, not, Option, none,
  some, List, [], ◌∷◌, ◌++◌, append_assoc, append-nil, arith, ◌==◌, ltb, if◌then◌else◌, length,
  take, drop, replicate, length-append, bit_or, length-replicate,
}
use web_rtc_weak_network_vid.Common.Words.{be16}
use web_rtc_weak_network_vid.Rtc.{RtpLib}
use web_rtc_weak_network_vid.Extension.Scan.{used_part, find_loop}

-- kOneByteExtensionProfile
abbrev pub one_byte_extension_profile : ℕ
one_byte_extension_profile = 0xbede

-- `while (extension_body.size() % 4U != 0U) push_back(0)`, with fuel.
unfoldable pub pad_loop : ℕ → List ℕ → List ℕ
pad_loop zero body = body
pad_loop (suc fuel) body =
    let more = pad_loop fuel (body ++ (0 ∷ [])) in if length body % 4 == 0 then body else more

-- Three rounds are enough: see `pad_shape`.
abbrev pub pad : List ℕ → List ℕ
pad = pad_loop 3

-- `rewritten[0] | 0x10`
unfoldable pub set_extension_bit : List ℕ → List ℕ
set_extension_bit [] = []
set_extension_bit (b ∷ rest) = bit_or b 0x10 ∷ rest

module _ (lib : RtpLib) where
  unfoldable pub fixed_header_size : List ℕ → ℕ
  fixed_header_size bytes = 12 + lib.csrc_count bytes * 4

  -- Where the payload begins, and the part of the extension's body that is kept; `none` where the
  -- code returns.
  unfoldable pub old_extension : List ℕ → Option (ℕ × List ℕ)
  unfolding fixed_header_size
  old_extension bytes =
      let fixed = fixed_header_size bytes in
      let header = drop fixed bytes in
      let body_size = lib.header_length header * 4 in
      let payload = fixed + (lib.sizeof_extension_header + body_size) in
      let body = take body_size (drop (fixed + lib.sizeof_extension_header) bytes) in
      if not (lib.extension bytes)
      then some (fixed, [])
      else if ltb (length bytes) (fixed + lib.sizeof_extension_header)
      then none
      else if not (lib.profile_specific_id header == one_byte_extension_profile)
      then none
      else if ltb (length bytes) payload
      then none
      else some (payload, used_part body)

  -- The fixed header with its extension bit set, the extension, and the old payload.
  unfoldable pub put_extension : List ℕ → ℕ → List ℕ → List ℕ
  put_extension bytes payload body =
      set_extension_bit (take (fixed_header_size bytes) bytes)
      ++ (be16 one_byte_extension_profile
          ++ (be16 (length body / 4 % 65536) ++ (body ++ drop payload bytes)))

  -- The value of the first element with this id and size in the extension of a packet.
  unfoldable pub extension_value : ℕ → ℕ → List ℕ → Option (List ℕ)
  extension_value id size bytes =
      let fixed = fixed_header_size bytes in
      let header = drop fixed bytes in
      let body_size = lib.header_length header * 4 in
      let body_offset = fixed + lib.sizeof_extension_header in
      if not (lib.extension bytes)
      then none
      else if ltb (length bytes) body_offset
      then none
      else if not (lib.profile_specific_id header == one_byte_extension_profile)
      then none
      else if ltb (length bytes) (body_offset + body_size)
      then none
      else find_loop id size 0 (take body_size (drop body_offset bytes))

-- The loop ends by its test after the `n` rounds that are missing.
pad_loop-replicate :
    (n fuel : ℕ) (body : List ℕ)
    → n ≤ fuel
    → n < 4
    → (length body + n) % 4 ≡ 0
    → pad_loop fuel body ≡ body ++ replicate n 0
unfolding pad_loop
pad_loop-replicate zero zero body h k e = sym (append-nil body)
pad_loop-replicate zero (suc fuel) body h k e =
    let t : (length body % 4 == 0) ≡ true = ground arith in rw t (sym (append-nil body))
pad_loop-replicate (suc n) zero body h k e = absurd (omega arith)
pad_loop-replicate (suc n) (suc fuel) body h k e =
    let t : (length body % 4 == 0) ≡ false = ground arith in
    rw t (
      pad_loop-replicate n fuel (body ++ (0 ∷ [])) (omega arith) (omega arith)
        (omega (arith, length-append body (0 ∷ [])))
      ∙ append_assoc body (0 ∷ []) (replicate n 0))

-- How many zero bytes are missing.
abbrev pub missing : List ℕ → ℕ
missing body = (4 - length body % 4) % 4

-- Padding ends at a multiple of four, after at most three zero bytes.
pub pad_shape :
    (body : List ℕ) → (pad body ≡ body ++ replicate (missing body) 0) × (length (pad body) % 4 ≡ 0)
pad_shape body =
    let e = pad_loop-replicate (missing body) 3 body (omega arith) (omega arith) (omega arith) in
    (
      e,
      rw e (
          omega (
            arith,
            length-append body (replicate (missing body) 0),
            length-replicate (missing body) (let z : ℕ = 0 in z),
          )),
    )

pub length-pad : (body : List ℕ) → length (pad body) ≤ length body + 3
length-pad body = rw ((pad_shape body).0) (
    omega (
      arith,
      length-append body (replicate (missing body) 0),
      length-replicate (missing body) (let z : ℕ = 0 in z),
    ))
