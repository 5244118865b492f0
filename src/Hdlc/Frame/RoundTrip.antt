-- ===== src/Hdlc/Frame/RoundTrip.antt =====
-- What `HdlcFrame.encode` writes, `HdlcFrame.decode` reads back.
use rise_sun.Common.{
  ℕ, ◌+◌, ◌-◌, ◌*◌, ◌/◌, ◌%◌, ◌^◌, ◌≤◌, ◌<◌, ◌≡◌, refl, sym, ap, ◌∙◌, List, [], ◌∷◌, ◌++◌, arith,
}
use rise_sun.Common.{bit_and, bit_or, length, append_assoc, All-append, eq→==, lt→ltb, le→ltb}
use rise_sun.Common.Bits.{bit_and_mask, bit_or_field}
use mathlib.Core.Path.{subst}
use rise_sun.Errors.{ok}
use rise_sun.Bytes.{
  IsByte, IsBytes, slice, byte_at, lengths, length-append_bytes, get_elem?_middle, slice_of,
  byte_at_of, drop_at, big_endian, little_endian, from_bytes_big, from_bytes_little,
  from_bytes_big-big_endian, from_bytes_little-little_endian, big_endian-IsBytes,
  little_endian-IsBytes,
}
use rise_sun.Hdlc.Crc.{crc16_x25}
use rise_sun.Hdlc.Crc.Bounds.{crc16_x25-lt}
use rise_sun.Hdlc.Address.{encode_hdlc_address, decode_hdlc_address}
use rise_sun.Hdlc.Address.RoundTrip.{Field, encode_hdlc_address-Field, encode_total}
use rise_sun.Hdlc.Frame.{HdlcFrame, encode, decode, decode_body, flag, frame_type_nibble}

module _ (f1 f2 h1 h2 g1 g2 dst src ctl : ℕ) (D S I : List ℕ) (fd : Field dst D)
    (fs : Field src S) where
  -- The body of a frame, with the fields' bytes in place.
  body_of : List ℕ
  body_of = f1 ∷ f2 ∷ (D ++ (S ++ (ctl ∷ h1 ∷ h2 ∷ (I ++ (g1 ∷ g2 ∷ [])))))

  header_of : List ℕ
  header_of = f1 ∷ f2 ∷ (D ++ (S ++ (ctl ∷ [])))

  checked_of : List ℕ
  checked_of = f1 ∷ f2 ∷ (D ++ (S ++ (ctl ∷ h1 ∷ h2 ∷ I)))

  length-body_of : length body_of ≡ length D + length S + length I + 7
  unfolding body_of
  length-body_of = omega lengths

  first_address : decode_hdlc_address body_of 2 ≡ ok (dst, length D)
  unfolding body_of decode_hdlc_address
  first_address = fd.reads _

  second_address : decode_hdlc_address body_of (2 + length D) ≡ ok (src, length S)
  unfolding body_of decode_hdlc_address
  second_address = rw (drop_at (f1 ∷ f2 ∷ D) _ (2 + length D) (omega arith)) (fs.reads _)

  control_byte : byte_at body_of (2 + length D + length S) ≡ ok ctl
  unfolding body_of
  control_byte =
      byte_at_of body_of (f1 ∷ f2 ∷ (D ++ S)) ctl (h1 ∷ h2 ∷ (I ++ (g1 ∷ g2 ∷ []))) _
        (simp append_assoc) (omega lengths)

  hcs_bytes :
      slice (2 + length D + length S + 1) (2 + length D + length S + 1 + 2) body_of ≡ h1 ∷ h2 ∷ []
  unfolding body_of
  hcs_bytes =
      slice_of body_of (f1 ∷ f2 ∷ (D ++ (S ++ (ctl ∷ [])))) (h1 ∷ h2 ∷ []) (I ++ (g1 ∷ g2 ∷ [])) _ _
        (simp append_assoc) (omega lengths) (omega lengths)

  header_bytes : slice 0 (2 + length D + length S + 1) body_of ≡ header_of
  unfolding body_of header_of
  header_bytes =
      slice_of body_of [] (f1 ∷ f2 ∷ (D ++ (S ++ (ctl ∷ [])))) (h1 ∷ h2 ∷ (I ++ (g1 ∷ g2 ∷ []))) _ _
        (simp append_assoc) (omega lengths) (omega lengths)

  info_bytes : slice (2 + length D + length S + 1 + 2) (length body_of - 2) body_of ≡ I
  unfolding body_of
  info_bytes =
      slice_of body_of (f1 ∷ f2 ∷ (D ++ (S ++ (ctl ∷ h1 ∷ h2 ∷ [])))) I (g1 ∷ g2 ∷ []) _ _
        (simp append_assoc) (omega lengths) (omega lengths)

  fcs_bytes : slice (length body_of - 2) (length body_of) body_of ≡ g1 ∷ g2 ∷ []
  unfolding body_of
  fcs_bytes =
      slice_of body_of (f1 ∷ f2 ∷ (D ++ (S ++ (ctl ∷ h1 ∷ h2 ∷ I)))) (g1 ∷ g2 ∷ []) [] _ _
        (simp append_assoc) (omega lengths) (omega lengths)

  checked_bytes : slice 0 (length body_of - 2) body_of ≡ checked_of
  unfolding body_of checked_of
  checked_bytes =
      slice_of body_of [] (f1 ∷ f2 ∷ (D ++ (S ++ (ctl ∷ h1 ∷ h2 ∷ I)))) (g1 ∷ g2 ∷ []) _ _
        (simp append_assoc) (omega lengths) (omega lengths)

  format_bytes : slice 0 2 body_of ≡ f1 ∷ f2 ∷ []
  unfolding body_of
  format_bytes = refl

  -- The decoder on such a body: the frame, once the three checks hold.
  decode_body_of :
      (raw : List ℕ)
      → bit_and (from_bytes_big (f1 ∷ f2 ∷ [])) 0x07FF ≡ length raw - 2
      → from_bytes_little (h1 ∷ h2 ∷ []) ≡ crc16_x25 header_of
      → from_bytes_little (g1 ∷ g2 ∷ []) ≡ crc16_x25 checked_of
      → decode_body raw body_of
        ≡ ok (record { destination = dst; source = src; control = ctl; information = I })
  unfolding decode_body
  decode_body_of raw ef eh eg = simp (
    format_bytes,
    eq→== _ _ ef,
    first_address,
    second_address,
    control_byte,
    hcs_bytes,
    header_bytes,
    eq→== _ _ eh,
    info_bytes,
    fcs_bytes,
    checked_bytes,
    eq→== _ _ eg,
  )

-- The Frame Format field of a length below 2048 is its low bits, below the frame type.
format_value : (len : ℕ) → len < 2048 → bit_or (frame_type_nibble * 256) len ≡ 0xA000 + len
format_value len h = bit_or_field 11 20 len h

declared_value :
    (len : ℕ) → len < 2048 → bit_and (bit_or (frame_type_nibble * 256) len) 0x07FF ≡ len
declared_value len h = rw (format_value len h) (omega (arith, bit_and_mask 11 (0xA000 + len)))

-- Between two flags the decoder reads the body.
pub decode-flagged :
    (body : List ℕ)
    → 7 ≤ length body
    → decode (flag ∷ (body ++ (flag ∷ []))) ≡ decode_body (flag ∷ (body ++ (flag ∷ []))) body
unfolding decode
decode-flagged body h = simp (
  le→ltb (length (flag ∷ (body ++ (flag ∷ [])))) 9 (omega lengths),
  get_elem?_middle (flag ∷ body) flag [] (length (flag ∷ (body ++ (flag ∷ []))) - 1)
      (omega lengths),
  slice_of (flag ∷ (body ++ (flag ∷ []))) (flag ∷ []) body (flag ∷ []) 1
      (length (flag ∷ (body ++ (flag ∷ []))) - 1) refl refl (omega lengths),
)

-- The text of a frame: flags around a Frame Format field that tells the length, and a body.
pub record Framed (f : HdlcFrame) (raw : List ℕ) : Type 0 where
  pub format : List ℕ
  pub body : List ℕ
  pub shape : raw ≡ flag ∷ (format ++ (body ++ (flag ∷ [])))
  pub two : length format ≡ 2
  pub declared : bit_and (from_bytes_big format) 0x07FF ≡ length body + 2
  pub decodes : decode raw ≡ ok f

module _ (f : HdlcFrame) (D S : List ℕ) (ed : encode_hdlc_address f.destination ≡ ok D)
    (es : encode_hdlc_address f.source ≡ ok S) (hc : IsByte f.control) (hi : IsBytes f.information)
    (short : length f.information ≤ 2032) where
  fd : Field f.destination D
  fd = encode_hdlc_address-Field f.destination D ed

  fs : Field f.source S
  fs = encode_hdlc_address-Field f.source S es

  abbrev header : List ℕ
  header = D ++ (S ++ (f.control ∷ []))

  abbrev len : ℕ
  len = 2 + length header + 2 + length f.information + 2

  abbrev format : ℕ
  format = bit_or (frame_type_nibble * 256) len

  abbrev hcs : ℕ
  hcs = crc16_x25 (big_endian 2 format ++ header)

  abbrev checked : List ℕ
  checked = big_endian 2 format ++ (header ++ (little_endian 2 hcs ++ f.information))

  abbrev fcs : ℕ
  fcs = crc16_x25 checked

  len_bound : len < 2048
  len_bound = omega (lengths, fd.short, fs.short)

  format_fits : format < 65536
  format_fits = omega (arith, format_value len len_bound, len_bound)

  format-IsBytes : IsBytes (big_endian 2 format)
  format-IsBytes = big_endian-IsBytes 2 format format_fits

  header-IsBytes : IsBytes header
  header-IsBytes = All-append IsByte D _ fd.bytes (All-append IsByte S _ fs.bytes (hc, tt))

  hcs_fits : hcs < 65536
  hcs_fits =
      crc16_x25-lt _ (All-append IsByte (big_endian 2 format) _ format-IsBytes header-IsBytes)

  fcs_fits : fcs < 65536
  fcs_fits = crc16_x25-lt _ (
      All-append IsByte (big_endian 2 format) _ format-IsBytes (
        All-append IsByte header _ header-IsBytes
          (All-append IsByte (little_endian 2 hcs) _ (little_endian-IsBytes 2 hcs) hi)))

  encode_of : encode f ≡ ok (flag ∷ ((checked ++ little_endian 2 fcs) ++ (flag ∷ [])))
  unfolding encode
  encode_of =
      simp (ed, es, lt→ltb _ _ hc, lt→ltb _ _ format_fits, lt→ltb _ _ hcs_fits, lt→ltb _ _ fcs_fits)
        (simp append_assoc)

  abbrev raw : List ℕ
  raw = flag ∷ ((checked ++ little_endian 2 fcs) ++ (flag ∷ []))

  -- The arguments of the lemmas about a body, for this frame.
  body_shape :
      checked ++ little_endian 2 fcs
      ≡ body_of
          (format / 256)
          (format % 256 / 1)
          (hcs % 256)
          (hcs / 256 % 256)
          (fcs % 256)
          (fcs / 256 % 256)
          f.destination
          f.source
          f.control
          D
          S
          f.information
          fd
          fs
  unfolding body_of
  body_shape = simp append_assoc

  checked_shape :
      checked_of
        (format / 256)
        (format % 256 / 1)
        (hcs % 256)
        (hcs / 256 % 256)
        (fcs % 256)
        (fcs / 256 % 256)
        f.destination
        f.source
        f.control
        D
        S
        f.information
        fd
        fs
      ≡ checked
  unfolding checked_of
  checked_shape = simp append_assoc

  header_shape :
      header_of
        (format / 256)
        (format % 256 / 1)
        (hcs % 256)
        (hcs / 256 % 256)
        (fcs % 256)
        (fcs / 256 % 256)
        f.destination
        f.source
        f.control
        D
        S
        f.information
        fd
        fs
      ≡ big_endian 2 format ++ header
  unfolding header_of
  header_shape = refl

  length-framed : length (checked ++ little_endian 2 fcs) ≡ len
  length-framed = simp length-append_bytes (omega arith)

  length-raw : length raw ≡ len + 2
  length-raw =
      rw (length-append_bytes (checked ++ little_endian 2 fcs) (flag ∷ []))
        (omega (arith, length-framed))

  format_read : bit_and (from_bytes_big (big_endian 2 format)) 0x07FF ≡ length raw - 2
  format_read =
      rw (from_bytes_big-big_endian 2 format format_fits, declared_value len len_bound)
        (omega (arith, length-raw))

  decode_of : decode raw ≡ ok f
  decode_of =
      decode-flagged (checked ++ little_endian 2 fcs)
        (subst (λ (t : ℕ). 7 ≤ t) (sym length-framed) (omega (lengths, fd.nonempty)))
      ∙ ap (decode_body raw) body_shape
      ∙ decode_body_of (format / 256) (format % 256 / 1) (hcs % 256) (hcs / 256 % 256) (fcs % 256)
          (fcs / 256 % 256) f.destination f.source f.control D S f.information fd fs raw format_read
          (rw header_shape (from_bytes_little-little_endian 2 hcs hcs_fits))
          (rw checked_shape (from_bytes_little-little_endian 2 fcs fcs_fits))

  abbrev rest : List ℕ
  rest = (header ++ (little_endian 2 hcs ++ f.information)) ++ little_endian 2 fcs

  framed : Framed f raw
  framed = record {
    format = big_endian 2 format;
    body = rest;
    shape = refl;
    two = refl;
    declared =
        rw (from_bytes_big-big_endian 2 format format_fits, declared_value len len_bound)
          (sym length-rest);
    decodes = decode_of;
  }
    where
      length-rest : length rest + 2 ≡ len
      length-rest = omega (arith, length-framed)

-- What a frame must be to have such a text.
pub record IsSendable (f : HdlcFrame) : Type 0 where
  pub destination : f.destination < 2 ^ 28
  pub source : f.source < 2 ^ 28
  pub control : f.control < 256
  pub information : IsBytes f.information
  pub short : length f.information ≤ 2032

pub encode-Framed :
    (f : HdlcFrame) → IsSendable f → (raw : List ℕ) × (encode f ≡ ok raw) × Framed f raw
encode-Framed f h =
    let (D, ed) = encode_total f.destination h.destination in
    let (S, es) = encode_total f.source h.source in
    (
      raw f D S ed es h.control h.information h.short,
      encode_of f D S ed es h.control h.information h.short,
      framed f D S ed es h.control h.information h.short,
    )

pub encoded-Framed :
    (f : HdlcFrame) (raw : List ℕ) → IsSendable f → encode f ≡ ok raw → Framed f raw
encoded-Framed f raw h e =
    let (raw', e', framed) = encode-Framed f h in subst (Framed f) (cc (e, e')) framed

-- A frame with addresses below 2 ^ 28, a control byte and an information field of at most 2032
-- bytes is encoded, and the decoder gives the frame back.
pub decode-encode :
    (f : HdlcFrame) → IsSendable f → (raw : List ℕ) × (encode f ≡ ok raw) × (decode raw ≡ ok f)
decode-encode f h = let (raw, e, framed) = encode-Framed f h in (raw, e, framed.decodes)
