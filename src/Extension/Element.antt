-- ===== src/Extension/Element.antt =====
-- Adding one element to the extension of a packet, as both handlers do.
use mathlib.Core.Option
use web_rtc_weak_network_vid.Common.{
  ℕ, zero, suc, ◌+◌, ◌-◌, ◌*◌, ◌/◌, ◌≤◌, ◌<◌, ◌≡◌, ◌≢◌, refl, ap, ◌∙◌, false, ◌&&◌, Option, none,
  some, List, [], ◌∷◌, ◌++◌, append_assoc, arith, ◌==◌, if◌then◌else◌, length, take, drop,
  replicate, length-append, length-take, length-drop, take-append,
}
use web_rtc_weak_network_vid.Common.Words.{IsByte, byte_at}
use web_rtc_weak_network_vid.Rtc.{RtpLib, HasRtpLayout}
use web_rtc_weak_network_vid.Extension.Scan.{
  value_size, ends, or_else, used_part, find_loop, length-used_part, find_loop-append,
}
use web_rtc_weak_network_vid.Extension.Rewrite.{
  fixed_header_size, old_extension, put_extension, extension_value, missing, pad, pad_shape,
  length-pad,
}
use web_rtc_weak_network_vid.Extension.Layout.{
  FitsPut, HeaderKept, put_extension_header, length-put_extension, extension_value-put_extension,
  old_extension-put_extension,
}

-- What lets a handler rewrite a packet: its fixed header is all there, its first byte is a byte, its
-- extension, if it has one, is a one-byte extension that lies inside it, and it is not much longer
-- than a datagram may be, so that 16 bits count the words of the new extension.
pub record CanRewrite (lib : RtpLib) (bytes : List ℕ) : Type 0 where
  pub header_there : fixed_header_size lib bytes ≤ length bytes
  pub first_byte : IsByte (byte_at bytes 0)
  pub short : length bytes < 131072
  pub payload : ℕ
  pub body : List ℕ
  pub extension_whole : old_extension lib bytes ≡ some (payload, body)

-- The payload of a packet, behind its header and its extension.
abbrev pub payload_of : RtpLib → List ℕ → Option (List ℕ)
payload_of lib bytes = Option.map (λ r. drop r.0 bytes) (old_extension lib bytes)

or_else-none {ℓ} : {A : Type ℓ} (o : Option A) → or_else o none ≡ o
or_else-none none = refl
or_else-none (some a) = refl

-- The descriptor of an element and its value.
abbrev pub element : ℕ → List ℕ → List ℕ
element id value = (id * 16 + (length value - 1)) ∷ value

find_loop_zeros : (id size n : ℕ) → find_loop id size 0 (replicate n 0) ≡ none
unfolding find_loop
find_loop_zeros id size zero = refl
find_loop_zeros id size (suc n) = find_loop_zeros id size n

find_loop_pass :
    (id size : ℕ) (value more : List ℕ)
    → find_loop id size (length value) (value ++ more) ≡ find_loop id size 0 more
unfolding find_loop
find_loop_pass id size [] more = refl
find_loop_pass id size (x ∷ value) more = find_loop_pass id size value more

-- An element with padding behind it: the search finds its value, if id and size are its own.
find_loop-element :
    (id size own n : ℕ) (value : List ℕ)
    → 0 < own
    → own < 15
    → 0 < length value
    → length value ≤ 16
    → find_loop id size 0 (element own value ++ replicate n 0)
      ≡ (if own == id && length value == size then some value else none)
unfolding find_loop
find_loop-element id size own n value h k l m =
    let d : ℕ = own * 16 + (length value - 1) in
    let rest = value ++ replicate n 0 in
    let nonzero : (d == 0) ≡ false = ground arith in
    let size_of : value_size d ≡ length value = omega arith in
    let id_of : d / 16 ≡ own = omega arith in
    let whole : ends d rest ≡ false =
      rw (size_of, id_of) (ground (arith, length-append value (replicate n 0))) in
    rw (nonzero, whole, size_of, id_of, find_loop_pass id size value (replicate n 0))
      (ground (arith, find_loop_zeros id size n, take-append size value (replicate n 0)))

-- What `old_extension` says of the packet: the same elements can be found, and it is no longer.
old_extension_value :
    (lib : RtpLib) (bytes : List ℕ) (end : ℕ) (body : List ℕ) (id size : ℕ) (more : List ℕ)
    → old_extension lib bytes ≡ some (end, body)
    → (find_loop id size 0 (body ++ more)
        ≡ or_else (extension_value lib id size bytes) (find_loop id size 0 more))
      × (length body ≤ length bytes)
unfolding old_extension extension_value
old_extension_value lib bytes end body id size more e =
    let fixed = fixed_header_size lib bytes in
    let old =
      take (lib.header_length (drop fixed bytes) * 4)
        (drop (fixed + lib.sizeof_extension_header) bytes) in
    ground (
      arith,
      find_loop-append id size old more,
      length-used_part old,
      length-take (lib.header_length (drop fixed bytes) * 4)
          (drop (fixed + lib.sizeof_extension_header) bytes),
      length-drop (fixed + lib.sizeof_extension_header) bytes,
    )

-- The old extension lies between the fixed header and the payload, inside the packet.
old_extension_bounds :
    (lib : RtpLib) (bytes : List ℕ) (end : ℕ) (body : List ℕ)
    → fixed_header_size lib bytes ≤ length bytes
    → old_extension lib bytes ≡ some (end, body)
    → (fixed_header_size lib bytes + length body ≤ end) × (end ≤ length bytes)
unfolding old_extension
old_extension_bounds lib bytes end body h e =
    let fixed = fixed_header_size lib bytes in
    let size = lib.header_length (drop fixed bytes) * 4 in
    let behind = drop (fixed + lib.sizeof_extension_header) bytes in
    ground (arith, length-used_part (take size behind), length-take size behind)

module _ (lib : RtpLib) (layout : HasRtpLayout lib) (bytes : List ℕ) (can : CanRewrite lib bytes)
    (own : ℕ) (value : List ℕ) (own_pos : 0 < own) (own_lt : own < 15)
    (value_pos : 0 < length value) (value_le : length value ≤ 16) where
  abbrev new_body : List ℕ
  new_body = pad (can.body ++ element own value)

  -- The packet with the element behind its used extension.
  abbrev pub put_element : List ℕ
  put_element = put_extension lib bytes can.payload new_body

  length_body : length new_body ≤ length can.body + length value + 4
  length_body = omega (
    arith,
    length-pad (can.body ++ element own value),
    length-append can.body (element own value),
  )

  pub put_element_fits : FitsPut lib bytes new_body
  put_element_fits = record {
    header_there = can.header_there;
    first_byte = can.first_byte;
    whole_words = (pad_shape (can.body ++ element own value)).1;
    countable = omega (
      arith,
      can.short,
      length_body,
      (old_extension_value lib bytes can.payload can.body 0 0 [] can.extension_whole).1,
    );
  }

  -- Each element of the packet can still be read, and the new one, if the packet had none like it.
  pub extension_value-put_element :
      (id size : ℕ)
      → extension_value lib id size put_element
        ≡ or_else
            (extension_value lib id size bytes)
            (if own == id && length value == size then some value else none)
  extension_value-put_element id size =
      let more = element own value ++ replicate (missing (can.body ++ element own value)) 0 in
      extension_value-put_extension lib layout bytes can.payload new_body put_element_fits id size
      ∙ ap (find_loop id size 0) ((pad_shape (can.body ++ element own value)).0)
      ∙ ap (find_loop id size 0) (append_assoc can.body (element own value) _)
      ∙ (old_extension_value lib bytes can.payload can.body id size more can.extension_whole).0
      ∙ ap (or_else (extension_value lib id size bytes))
          (find_loop-element id size own _ value own_pos own_lt value_pos value_le)

  pub put_element-HeaderKept : HeaderKept lib bytes put_element
  put_element-HeaderKept =
      put_extension_header lib layout bytes can.payload new_body put_element_fits

  pub length-put_element :
      (12 ≤ length put_element) × (length put_element ≤ length bytes + length value + 8)
  unfolding fixed_header_size
  length-put_element = omega (
    arith,
    length-put_extension lib layout bytes can.payload new_body put_element_fits,
    old_extension_bounds lib bytes can.payload can.body can.header_there can.extension_whole,
    length_body,
    length-drop can.payload bytes,
  )

  -- The payload is the old one, and the extension can be taken apart again.
  pub old_extension-put_element :
      (new_end : ℕ) × (old_extension lib put_element ≡ some (new_end, used_part new_body))
      × (drop new_end put_element ≡ drop can.payload bytes)
  old_extension-put_element =
      let (e, f) =
        old_extension-put_extension lib layout bytes can.payload new_body put_element_fits in
      (fixed_header_size lib bytes + (4 + length new_body), e, f)

  -- So it can be rewritten once more.
  pub put_element-CanRewrite : length put_element < 131072 → CanRewrite lib put_element
  put_element-CanRewrite short =
      let (new_end, e, _) = old_extension-put_element in
      record {
        header_there = omega (
          arith,
          put_element-HeaderKept.same_size,
          length-put_extension lib layout bytes can.payload new_body put_element_fits,
        );
        first_byte = put_element-HeaderKept.first_byte;
        short = short;
        payload = new_end;
        body = used_part new_body;
        extension_whole = e;
      }

  -- Elements of other ids are read as before.
  pub extension_value-put_element_ne :
      (id size : ℕ)
      → id ≢ own
      → extension_value lib id size put_element ≡ extension_value lib id size bytes
  extension_value-put_element_ne id size ne =
      let other : (own == id) ≡ false = ground arith in
      extension_value-put_element id size
      ∙ rw other (or_else-none (extension_value lib id size bytes))

  pub payload_of-put_element : payload_of lib put_element ≡ payload_of lib bytes
  payload_of-put_element =
      let (new_end, e, f) = old_extension-put_element in rw (e, can.extension_whole) (ap some f)
