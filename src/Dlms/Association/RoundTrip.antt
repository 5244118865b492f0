-- ===== src/Dlms/Association/RoundTrip.antt =====
-- The scan of the fields of AARQ and AARE, and AARQ read back.
use rise_sun.Common.{
  ℕ, zero, suc, ◌+◌, ◌≤◌, ◌<◌, ◌≡◌, refl, ap, ◌∙◌, List, [], ◌∷◌, ◌++◌, arith, none,
}
use rise_sun.Common.{length, append_assoc, append-nil, le→ltb, lt→ltb, le→leb, ◌==◌, if◌then◌else◌}
use rise_sun.Errors.{Result, ok, err, ◌>>=◌}
use rise_sun.Bytes.{byte_at, byte_at_of, slice, slice_of, length-append_bytes, lengths}
use rise_sun.Dlms.Ber.{encode_oid, base128}
use rise_sun.Dlms.Association.{
  field, build_aarq, parse_aarq, parse_aarq_loop, password_of, user_information_initiate,
}

-- The bytes of a sequence of fields: tag, length and content.
abbrev pub flatten : List (ℕ × List ℕ) → List ℕ
flatten [] = []
flatten ((tag, content) ∷ fields) = tag ∷ length content ∷ (content ++ flatten fields)

-- What the loop of `parse_aarq` is for: the password of the last field 0xAC that has one.
abbrev pub password_in : List (ℕ × List ℕ) → List ℕ → Result (List ℕ)
password_in [] password = ok password
password_in ((tag, content) ∷ fields) password =
    (if tag == 0xAC then password_of content password else ok password) >>= password_in fields

module _ (pre : List ℕ) (tag : ℕ) (content rest : List ℕ) where
  abbrev whole : List ℕ
  whole = pre ++ (tag ∷ length content ∷ (content ++ rest))

  tag_at : byte_at whole (length pre) ≡ ok tag
  tag_at = byte_at_of whole pre tag (length content ∷ (content ++ rest)) (length pre) refl refl

  size_at : byte_at whole (length pre + 1) ≡ ok (length content)
  size_at =
      byte_at_of whole (pre ++ (tag ∷ [])) (length content) (content ++ rest) (length pre + 1)
        (simp append_assoc) (omega lengths)

  content_at : slice (length pre + 2) (length pre + 2 + length content) whole ≡ content
  content_at =
      slice_of whole (pre ++ (tag ∷ length content ∷ [])) content rest (length pre + 2)
        (length pre + 2 + length content) (simp append_assoc) (omega lengths) (omega lengths)

  more_to_read : length pre + 1 < length whole
  more_to_read = omega lengths

  after : List ℕ
  after = pre ++ (tag ∷ length content ∷ content)

  whole-after : whole ≡ after ++ rest
  unfolding after
  whole-after = simp append_assoc

  length-after : length pre + (2 + length content) ≡ length after
  unfolding after
  length-after = omega lengths

continue_with :
    (f : List ℕ → Result (List ℕ)) (g : List ℕ → Result (List ℕ)) (r : Result (List ℕ))
    → ((p : List ℕ) → f p ≡ g p)
    → (r >>= f) ≡ (r >>= g)
continue_with f g (ok p) h = h p
continue_with f g (err x) h = refl

-- The loop of `parse_aarq` over fields, from behind those that were read before.
aarq_loop-flatten :
    (fields : List (ℕ × List ℕ)) (fuel : ℕ) (pre password : List ℕ)
    → length fields ≤ fuel
    → parse_aarq_loop fuel (pre ++ flatten fields) (length pre) password
      ≡ password_in fields password
unfolding parse_aarq_loop
aarq_loop-flatten [] zero pre password h =
    rw (le→ltb (length pre) (length (pre ++ [])) (omega lengths)) refl
aarq_loop-flatten [] (suc fuel) pre password h =
    rw (le→ltb (length pre) (length (pre ++ [])) (omega lengths)) refl
aarq_loop-flatten (f ∷ fields) zero pre password h = absurd (omega arith)
aarq_loop-flatten ((tag, content) ∷ fields) (suc fuel) pre password h =
    simp
      (
        lt→ltb (length pre) (length (whole pre tag content (flatten fields)))
            (omega (arith, more_to_read pre tag content (flatten fields))),
        tag_at pre tag content (flatten fields),
        size_at pre tag content (flatten fields),
        content_at pre tag content (flatten fields),
      )
      (continue_with _ _ (if tag == 0xAC then password_of content password else ok password) λ p.
        ap (λ (t : List ℕ). parse_aarq_loop fuel t (length pre + (2 + length content)) p)
          (whole-after pre tag content (flatten fields))
        ∙ ap
            (λ (n : ℕ).
              parse_aarq_loop fuel (after pre tag content (flatten fields) ++ flatten fields) n p)
            (length-after pre tag content (flatten fields))
        ∙ aarq_loop-flatten fields fuel (after pre tag content (flatten fields)) p (omega arith))

length-flatten : (fields : List (ℕ × List ℕ)) → length fields ≤ length (flatten fields)
length-flatten [] = omega arith
length-flatten ((tag, content) ∷ fields) =
    omega (arith, length-flatten fields, length-append_bytes content (flatten fields))

-- A whole AARQ of given fields.
parse_aarq-flatten :
    (fields : List (ℕ × List ℕ))
    → parse_aarq (0x60 ∷ length (flatten fields) ∷ flatten fields) ≡ password_in fields []
unfolding parse_aarq
parse_aarq-flatten fields =
    simp
      (slice_of (length (flatten fields) ∷ flatten fields) (length (flatten fields) ∷ [])
        (flatten fields) [] 1 (1 + length (flatten fields)) (simp append-nil) refl refl)
      (aarq_loop-flatten fields (length (flatten fields)) [] [] (length-flatten fields))

-- The fields of an AARQ for a password.
abbrev fields_of : List ℕ → List (ℕ × List ℕ)
fields_of password =
    (0xA1, 0x06 ∷ 0x07 ∷ 0x60 ∷ 0x85 ∷ 0x74 ∷ 0x05 ∷ 0x08 ∷ 0x01 ∷ 0x01 ∷ [])
    ∷ (0x8A, 0x07 ∷ 0x80 ∷ [])
    ∷ (0x8B, 0x60 ∷ 0x85 ∷ 0x74 ∷ 0x05 ∷ 0x08 ∷ 0x02 ∷ 0x01 ∷ [])
    ∷ (0xAC, 0x80 ∷ length password ∷ password)
    ∷ (
      0xBE,
      0x04 ∷ 0x0E ∷ 0x01 ∷ 0x00 ∷ 0x00 ∷ 0x00 ∷ 0x06 ∷ 0x5F ∷ 0x1F ∷ 0x04 ∷ 0x00 ∷ 0x00 ∷ 0x08
          ∷ 0x1D ∷ 0x08 ∷ 0x00 ∷ [],
    )
    ∷ []

length-fields_of :
    (password : List ℕ) → length (flatten (fields_of password)) ≡ 46 + length password
length-fields_of password = omega (arith, length-append_bytes password user_information_initiate)

build_aarq_of :
    (password : List ℕ)
    → length password ≤ 81
    → build_aarq password 1 none
      ≡ ok (0x60 ∷ length (flatten (fields_of password)) ∷ flatten (fields_of password))
unfolding build_aarq encode_oid base128 field
build_aarq_of password h = simp (
  lt→ltb (length password) 256 (omega arith),
  lt→ltb (length (0x80 ∷ length password ∷ password)) 256 (omega arith),
  le→leb (length (flatten (fields_of password))) 0x7F (omega (arith, length-fields_of password)),
  lt→ltb (length (flatten (fields_of password))) 256 (omega (arith, length-fields_of password)),
)

-- With the default mechanism and user information, an AARQ for a password of at most 81 bytes is
-- built, and parsing it gives the password.
pub parse_aarq-build_aarq :
    (password : List ℕ)
    → length password ≤ 81
    → (raw : List ℕ) × (build_aarq password 1 none ≡ ok raw) × (parse_aarq raw ≡ ok password)
parse_aarq-build_aarq password h = (
  0x60 ∷ length (flatten (fields_of password)) ∷ flatten (fields_of password),
  build_aarq_of password h,
  parse_aarq-flatten (fields_of password)
      ∙ simp (
          slice_of (length password ∷ password) (length password ∷ []) password [] 1
            (1 + length password) (simp append-nil) refl refl),
)
