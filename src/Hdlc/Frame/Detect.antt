-- ===== src/Hdlc/Frame/Detect.antt =====
-- What `HdlcFrame.decode` makes of damaged frames.
use rise_sun.Common.{ℕ, ◌+◌, ◌-◌, ◌≤◌, ◌≡◌, ◌≢◌, refl, sym, ap, ◌∙◌, List, [], ◌∷◌, ◌++◌, arith}
use rise_sun.Common.{length, append-nil, eq→==, bit_and}
use rise_sun.Hdlc.Address.RoundTrip.{Field}
use rise_sun.Errors.{ok, err, index_error}
use rise_sun.Bytes.{
  IsByte, IsBytes, slice, slice_of, drop_at, get_elem?_end, from_bytes_little, from_bytes_big,
  lengths, length-append_bytes,
}
use rise_sun.Hdlc.Crc.{crc16_x25}
use rise_sun.Hdlc.Crc.Detect.{crc16_x25-injective_byte}
use rise_sun.Hdlc.Address.{decode_hdlc_address, decode_address_loop}
use rise_sun.Hdlc.Frame.{HdlcFrame, decode, decode_body, flag}
use rise_sun.Hdlc.Frame.RoundTrip.{decode-flagged}

-- A body that is accepted ends in the checksum of what stands before its last two bytes.
decode_body-checksum :
    (raw body : List ℕ) (f : HdlcFrame)
    → decode_body raw body ≡ ok f
    → from_bytes_little (slice (length body - 2) (length body) body)
      ≡ crc16_x25 (slice 0 (length body - 2) body)
unfolding decode_body
decode_body-checksum raw body f e = ground arith

checksum_of :
    (text : List ℕ) (g1 g2 : ℕ) (f : HdlcFrame)
    → 5 ≤ length text
    → decode (flag ∷ ((text ++ g1 ∷ g2 ∷ []) ++ (flag ∷ []))) ≡ ok f
    → from_bytes_little (g1 ∷ g2 ∷ []) ≡ crc16_x25 text
checksum_of text g1 g2 f h e =
    ap from_bytes_little (sym last_two)
    ∙ decode_body-checksum _ (text ++ g1 ∷ g2 ∷ []) f
        (sym (decode-flagged (text ++ g1 ∷ g2 ∷ []) (omega lengths)) ∙ e)
    ∙ ap crc16_x25 before
  where
    last_two :
        slice
          (length (text ++ g1 ∷ g2 ∷ []) - 2)
          (length (text ++ g1 ∷ g2 ∷ []))
          (text ++ g1 ∷ g2 ∷ [])
        ≡ g1 ∷ g2 ∷ []
    last_two =
        slice_of (text ++ g1 ∷ g2 ∷ []) text (g1 ∷ g2 ∷ []) [] (length (text ++ g1 ∷ g2 ∷ []) - 2)
          (length (text ++ g1 ∷ g2 ∷ [])) refl (omega lengths) (omega lengths)

    before : slice 0 (length (text ++ g1 ∷ g2 ∷ []) - 2) (text ++ g1 ∷ g2 ∷ []) ≡ text
    before =
        slice_of (text ++ g1 ∷ g2 ∷ []) [] text (g1 ∷ g2 ∷ []) 0 (length (text ++ g1 ∷ g2 ∷ []) - 2)
          refl refl (omega lengths)

-- If a frame is accepted, then no frame that differs from it in one byte between the opening flag
-- and the checksum FCS is accepted.
pub decode_one_byte :
    (pre : List ℕ) (x y : ℕ) (post : List ℕ) (g1 g2 : ℕ) (f f' : HdlcFrame)
    → IsBytes pre
    → IsByte x
    → IsByte y
    → IsBytes post
    → 5 ≤ length (pre ++ x ∷ post)
    → x ≢ y
    → decode (flag ∷ (((pre ++ x ∷ post) ++ g1 ∷ g2 ∷ []) ++ (flag ∷ []))) ≡ ok f
    → decode (flag ∷ (((pre ++ y ∷ post) ++ g1 ∷ g2 ∷ []) ++ (flag ∷ []))) ≢ ok f'
decode_one_byte pre x y post g1 g2 f f' hp hx hy hq h ne e e' = ne (
    crc16_x25-injective_byte pre x y post hp hx hy hq (
      sym (checksum_of (pre ++ x ∷ post) g1 g2 f h e)
      ∙ checksum_of (pre ++ y ∷ post) g1 g2 f' same_length e'))
  where
    same_length : 5 ≤ length (pre ++ y ∷ post)
    same_length = rw length-append_bytes (rw length-append_bytes at h)

-- A frame whose two address fields fill the space between the Frame Format field and the closing
-- flag has no control byte. If its length is the declared one, `decode` does not raise an error of
-- its own for it but lets the `IndexError` of `body[header_end]` through.
pub decode_no_control :
    (f1 f2 dst src : ℕ) (D S : List ℕ)
    → Field dst D
    → Field src S
    → 5 ≤ length D + length S
    → bit_and (from_bytes_big (f1 ∷ f2 ∷ [])) 0x07FF ≡ length D + length S + 2
    → decode (flag ∷ ((f1 ∷ f2 ∷ (D ++ S)) ++ (flag ∷ []))) ≡ err index_error
unfolding decode_body decode_hdlc_address
decode_no_control f1 f2 dst src D S fd fs h e =
    decode-flagged (f1 ∷ f2 ∷ (D ++ S)) (omega lengths)
    ∙ simp (
      eq→== _ _ format,
      fd.reads S,
      drop_at (f1 ∷ f2 ∷ D) S (2 + length D) (omega arith),
      second,
      get_elem?_end (f1 ∷ f2 ∷ (D ++ S)) (2 + length D + length S) (omega lengths),
    )
  where
    format :
        bit_and (from_bytes_big (f1 ∷ f2 ∷ [])) 0x07FF
        ≡ length (flag ∷ ((f1 ∷ f2 ∷ (D ++ S)) ++ (flag ∷ []))) - 2
    format = omega (arith, e, length-append_bytes (D ++ S) (flag ∷ []), length-append_bytes D S)

    second : decode_address_loop S 0 0 ≡ ok (src, length S)
    second = rw append-nil at (fs.reads [])
