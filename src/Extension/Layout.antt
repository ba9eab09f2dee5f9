-- ===== src/Extension/Layout.antt =====
-- The shape of a packet whose extension was rewritten: what the accessors read off it.
use web_rtc_weak_network_vid.Common.{
  ℕ, zero, suc, ◌+◌, ◌-◌, ◌*◌, ◌/◌, ◌%◌, ◌≤◌, ◌<◌, ◌≡◌, refl, sym, ap, ◌∙◌, true, some, List, [],
  ◌∷◌, ◌++◌, arith, length, take, drop, length-append, length-take, take-append, drop-append,
  bit_or,
}
use web_rtc_weak_network_vid.Common.Words.{be16, IsByte, byte_at, bit_or-sixteen}
use web_rtc_weak_network_vid.Rtc.{RtpLib, HasRtpLayout}
use web_rtc_weak_network_vid.Extension.Scan.{used_part, find_loop}
use web_rtc_weak_network_vid.Extension.Rewrite.{
  one_byte_extension_profile, set_extension_bit, fixed_header_size, old_extension, put_extension,
  extension_value,
}

-- What a packet and a new body must be for a rewrite: the fixed header is all there, and the body
-- is a whole number of words that 16 bits can count.
pub record FitsPut (lib : RtpLib) (bytes body : List ℕ) : Type 0 where
  pub header_there : fixed_header_size lib bytes ≤ length bytes
  pub first_byte : IsByte (byte_at bytes 0)
  pub whole_words : length body % 4 ≡ 0
  pub countable : length body < 262144

drop_more :
    {A : Type 0} (n k : ℕ) (xs ys : List A) → length xs ≡ n → drop (n + k) (xs ++ ys) ≡ drop k ys
drop_more n k [] ys h = let e : n + k ≡ k = omega arith in rw e
drop_more n k (x ∷ xs) ys h =
    let e : n + k ≡ suc (length xs + k) = omega arith in rw e (drop_more (length xs) k xs ys refl)

take_head_two :
    {A : Type 0} (n : ℕ) (x y : A) (xs : List A)
    → 2 ≤ n
    → take n (x ∷ y ∷ xs) ≡ x ∷ y ∷ take (n - 2) xs
take_head_two zero x y xs h = absurd (omega arith)
take_head_two (suc zero) x y xs h = absurd (omega arith)
take_head_two (suc (suc n)) x y xs h = let e : suc (suc n) - 2 ≡ n = omega arith in rw e

-- What a rewrite leaves of the header: all that the handlers test, but for the extension bit.
pub record HeaderKept (lib : RtpLib) (bytes new : List ℕ) : Type 0 where
  pub extended : lib.extension new ≡ true
  pub same_size : fixed_header_size lib new ≡ fixed_header_size lib bytes
  pub same_version : lib.version new ≡ lib.version bytes
  pub same_padding : lib.padding new ≡ lib.padding bytes
  pub same_kind : lib.is_rtcp new ≡ lib.is_rtcp bytes
  pub first_byte : IsByte (byte_at new 0)

module _ (lib : RtpLib) (layout : HasRtpLayout lib) where
  -- The result of a rewrite begins with the two bytes of the packet, the extension bit set.
  put_extension_head :
      (b t : ℕ) (bs : List ℕ) (payload : ℕ) (body : List ℕ)
      → (tail : List ℕ) × (put_extension lib (b ∷ t ∷ bs) payload body ≡ bit_or b 0x10 ∷ t ∷ tail)
        × (fixed_header_size lib (b ∷ t ∷ bs) ≤ length (b ∷ t ∷ bs) → 6 ≤ length tail)
  unfolding put_extension set_extension_bit fixed_header_size
  put_extension_head b t bs payload body =
      let n = 12 + lib.csrc_count (b ∷ t ∷ bs) * 4 in
      let rest : List ℕ =
        be16 one_byte_extension_profile
        ++ (be16 (length body / 4 % 65536) ++ (body ++ drop payload (b ∷ t ∷ bs))) in
      (
        take (n - 2) bs ++ rest,
        rw (take_head_two n b t bs (omega arith)),
        λ h. omega (arith, length-append (take (n - 2) bs) rest, length-take (n - 2) bs),
      )

  pub put_extension_header :
      (bytes : List ℕ) (payload : ℕ) (body : List ℕ)
      → FitsPut lib bytes body
      → HeaderKept lib bytes (put_extension lib bytes payload body)
  put_extension_header [] payload body f =
      absurd (unfold fixed_header_size in omega (arith, f.header_there))
  put_extension_header (b ∷ []) payload body f =
      absurd (unfold fixed_header_size in omega (arith, f.header_there))
  put_extension_header (b ∷ t ∷ bs) payload body f =
      let (tail, e, long) = put_extension_head b t bs payload body in
      let bit = bit_or-sixteen b f.first_byte in
      let there : 12 ≤ length (b ∷ t ∷ bs) =
        unfold fixed_header_size in omega (arith, f.header_there) in
      rw (e, bit)
        (record {
          extended = rw layout.extension_bit (ground arith);
          same_size =
              unfold fixed_header_size in
              rw (layout.csrc_bits, layout.csrc_bits) (ap (λ (c : ℕ). 12 + c * 4) (omega arith));
          same_version = rw (layout.version_bits, layout.version_bits) (omega arith);
          same_padding = rw (layout.padding_bit, layout.padding_bit) (ground arith);
          same_kind = layout.is_rtcp_by_second _ b t tail bs (long f.header_there) (omega arith);
          first_byte = omega arith;
        })

-- A packet whose fixed header is followed by an extension with this body, and the payload.
abbrev Shape : List ℕ → List ℕ → List ℕ → List ℕ → Type 0
Shape bytes head body pay =
    bytes
    ≡ head ++ (be16 one_byte_extension_profile ++ (be16 (length body / 4 % 65536) ++ (body ++ pay)))

module _ (lib : RtpLib) (layout : HasRtpLayout lib) (bytes head body pay : List ℕ)
    (shape : Shape bytes head body pay) (ext : lib.extension bytes ≡ true)
    (fixed : fixed_header_size lib bytes ≡ length head) (words : length body % 4 ≡ 0)
    (small : length body < 262144) where
  abbrev behind_header : List ℕ
  behind_header =
      be16 one_byte_extension_profile ++ (be16 (length body / 4 % 65536) ++ (body ++ pay))

  header_at : drop (length head) bytes ≡ behind_header
  header_at = rw shape (drop-append (length head) head behind_header refl)

  words_read : lib.header_length behind_header * 4 ≡ length body
  words_read = rw layout.length_bytes (omega arith)

  body_at : drop (length head + 4) bytes ≡ body ++ pay
  body_at = rw (shape, drop_more (length head) 4 head behind_header refl)

  length_bytes : length bytes ≡ length head + (4 + (length body + length pay))
  length_bytes = rw shape (omega (arith, length-append head behind_header, length-append body pay))

  -- The search runs over exactly the body.
  extension_value_shape :
      (id size : ℕ) → extension_value lib id size bytes ≡ find_loop id size 0 body
  unfolding extension_value
  extension_value_shape id size =
      rw
        (
          ext, fixed, layout.extension_header_size, header_at, body_at, words_read,
          layout.profile_bytes,
        )
        (ground (arith, length_bytes, take-append (length body) body pay refl))

  -- Another rewrite takes the same body and payload apart.
  old_extension_shape :
      (old_extension lib bytes ≡ some (length head + (4 + length body), used_part body))
      × (drop (length head + (4 + length body)) bytes ≡ pay)
  unfolding old_extension
  old_extension_shape = (
    rw
        (
          ext, fixed, layout.extension_header_size, header_at, body_at, words_read,
          layout.profile_bytes,
        )
        (ground (arith, length_bytes, take-append (length body) body pay refl)),
    rw (shape, drop_more (length head) (4 + length body) head behind_header refl)
        (let e : 4 + length body ≡ suc (suc (suc (suc (length body)))) = omega arith in
          rw e (drop-append (length body) body pay refl)),
  )

length-set_extension_bit : (bs : List ℕ) → length (set_extension_bit bs) ≡ length bs
unfolding set_extension_bit
length-set_extension_bit [] = refl
length-set_extension_bit (b ∷ bs) = refl

module _ (lib : RtpLib) (layout : HasRtpLayout lib) (bytes : List ℕ) (payload : ℕ) (body : List ℕ)
    (fits : FitsPut lib bytes body) where
  abbrev new_head : List ℕ
  new_head = set_extension_bit (take (fixed_header_size lib bytes) bytes)

  length_head : length new_head ≡ fixed_header_size lib bytes
  length_head = omega (
    arith,
    fits.header_there,
    length-set_extension_bit (take (fixed_header_size lib bytes) bytes),
    length-take (fixed_header_size lib bytes) bytes,
  )

  new_header_bytes : Shape (put_extension lib bytes payload body) new_head body (drop payload bytes)
  unfolding put_extension
  new_header_bytes = refl

  -- Reading a rewritten packet searches the new body.
  pub extension_value-put_extension :
      (id size : ℕ)
      → extension_value lib id size (put_extension lib bytes payload body)
        ≡ find_loop id size 0 body
  extension_value-put_extension id size =
      let kept = put_extension_header lib layout bytes payload body fits in
      extension_value_shape lib layout _ new_head body (drop payload bytes) new_header_bytes
        kept.extended (kept.same_size ∙ sym length_head) fits.whole_words fits.countable id size

  -- Taking a rewritten packet apart gives the used part of the new body and the old payload.
  pub old_extension-put_extension :
      let end = fixed_header_size lib bytes + (4 + length body) in
      (old_extension lib (put_extension lib bytes payload body) ≡ some (end, used_part body))
      × (drop end (put_extension lib bytes payload body) ≡ drop payload bytes)
  old_extension-put_extension =
      let kept = put_extension_header lib layout bytes payload body fits in
      rw (← length_head) (
        old_extension_shape lib layout _ new_head body (drop payload bytes) new_header_bytes
          kept.extended (kept.same_size ∙ sym length_head) fits.whole_words fits.countable)

  pub length-put_extension :
      length (put_extension lib bytes payload body)
      ≡ fixed_header_size lib bytes + (4 + (length body + length (drop payload bytes)))
  length-put_extension =
      let kept = put_extension_header lib layout bytes payload body fits in
      rw (← length_head) (
        length_bytes lib layout _ new_head body (drop payload bytes) new_header_bytes kept.extended
          (kept.same_size ∙ sym length_head) fits.whole_words fits.countable)
