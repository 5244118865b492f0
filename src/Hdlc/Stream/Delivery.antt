-- ===== src/Hdlc/Stream/Delivery.antt =====
-- A frame that was sent is read from the socket as it was sent, however it arrives.
use rise_sun.Common.{ℕ, ◌+◌, ◌-◌, ◌≤◌, ◌≡◌, refl, sym, ap, ◌∙◌, List, [], ◌∷◌, ◌++◌, arith, bit_and}
use rise_sun.Common.{length, take, drop, append_assoc, take-append, drop-append, le→leb}
use mathlib.Core.Path.{subst}
use rise_sun.Errors.{ok}
use rise_sun.Bytes.{length-append_bytes, slice_of, from_bytes_big}
use rise_sun.Transport.{Socket, Link, recv_exact}
use rise_sun.Transport.Delivery.{delivered, ending, recv_exact_delivers}
use rise_sun.Hdlc.Frame.{HdlcFrame, encode, decode, flag}
use rise_sun.Hdlc.Frame.RoundTrip.{IsSendable, encoded-Framed}
use rise_sun.Hdlc.Stream.{read_frame_from_transport, last_text}

-- `m` returns `a` and takes the bytes `text` off what the socket delivers.
abbrev pub Takes : {A : Type 0} → Link A → Socket → A → List ℕ → Type 0
Takes m s a rest =
    (s' : Socket) × (m s ≡ (ok a, s')) × (delivered s' ≡ rest) × (ending s' ≡ ending s)

-- `recv_exact` on a socket that delivers the text and more.
pub recv_exact-Takes :
    (n : ℕ) (s : Socket) (text rest : List ℕ)
    → delivered s ≡ text ++ rest
    → n ≡ length text
    → Takes (recv_exact n) s text rest
recv_exact-Takes n s text rest e h =
    let (s', run, left, same) = recv_exact_delivers n s enough in
    (
      s',
      run ∙ ap (λ (t : List ℕ). (ok t, s')) (ap (take n) e ∙ rw h (take-append text rest)),
      left ∙ ap (drop n) e ∙ rw h (drop-append text rest),
      same,
    )
  where
    enough : n ≤ length (delivered s)
    enough = omega (arith, ap length e, length-append_bytes text rest)

last_text-flag : (text : List ℕ) → last_text (text ++ (flag ∷ [])) ≡ flag ∷ []
last_text-flag text =
    slice_of (text ++ (flag ∷ [])) text (flag ∷ []) [] _ _ refl
      (omega (arith, length-append_bytes text (flag ∷ [])))
      (omega (arith, length-append_bytes text (flag ∷ [])))

-- Any text of the shape of a frame, with whatever behind it.
read_framed :
    (s : Socket) (format body more : List ℕ)
    → length format ≡ 2
    → bit_and (from_bytes_big format) 0x07FF ≡ length body + 2
    → delivered s ≡ (flag ∷ (format ++ (body ++ (flag ∷ [])))) ++ more
    → Takes read_frame_from_transport s (flag ∷ (format ++ (body ++ (flag ∷ [])))) more
unfolding read_frame_from_transport
read_framed s format body more two len e =
    let (s₁, run₁, left₁, same₁) =
      recv_exact-Takes 1 s (flag ∷ []) (format ++ (body ++ (flag ∷ [])) ++ more) e refl in
    let (s₂, run₂, left₂, same₂) =
      recv_exact-Takes 2 s₁ format ((body ++ (flag ∷ [])) ++ more)
        (left₁ ∙ append_assoc format (body ++ (flag ∷ [])) more) (sym two) in
    let (s₃, run₃, left₃, same₃) =
      recv_exact-Takes (length body + 2 - 2 + 1) s₂ (body ++ (flag ∷ [])) more left₂
        (omega (arith, length-append_bytes body (flag ∷ []))) in
    (
      s₃,
      simp (run₁, run₂, len, le→leb 2 (length body + 2) (omega arith), run₃, last),
      left₃,
      same₃ ∙ same₂ ∙ same₁,
    )
  where
    last : last_text (body ++ (flag ∷ [])) ≡ flag ∷ []
    last = last_text-flag body

-- The text of an encoded frame is read as it is, and what follows it stays on the socket, however
-- the bytes are cut into chunks; decoding it gives the frame.
pub read_frame-encode :
    (f : HdlcFrame) (s : Socket) (raw more : List ℕ)
    → IsSendable f
    → encode f ≡ ok raw
    → delivered s ≡ raw ++ more
    → Takes read_frame_from_transport s raw more × (decode raw ≡ ok f)
read_frame-encode f s raw more h e d =
    let framed = encoded-Framed f raw h e in
    (
      subst (λ (t : List ℕ). Takes read_frame_from_transport s t more) (sym framed.shape)
          (read_framed s framed.format framed.body more framed.two framed.declared
            (d ∙ ap (λ (t : List ℕ). t ++ more) framed.shape)),
      framed.decodes,
    )
