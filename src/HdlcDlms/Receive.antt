-- ===== src/HdlcDlms/Receive.antt =====
-- `_recv_i_frame` skips supervisory frames, up to its limit.
use rise_sun.Common.{ℕ, zero, suc, ◌<◌, ◌≡◌, refl, ap, ◌∙◌, List, [], ◌∷◌, ◌++◌, arith, bit_and}
use rise_sun.Common.{length, append_assoc, eq→==, ne→==}
use rise_sun.Errors.{ok, err, plain, gateway_error}
use rise_sun.Transport.{Socket}
use rise_sun.Transport.Delivery.{delivered}
use rise_sun.Hdlc.Frame.{HdlcFrame, encode}
use rise_sun.Hdlc.Frame.RoundTrip.{IsSendable}
use rise_sun.Hdlc.Stream.Delivery.{Takes, read_frame-encode}
use rise_sun.HdlcDlms.{recv_frame, recv_i_frame_loop, recv_i_frame}

-- The text of supervisory frames, which have an odd control byte, one behind the other.
abbrev pub Supervisory : List HdlcFrame → List ℕ → Type 0
Supervisory [] text = text ≡ []
Supervisory (f ∷ fs) text =
    (raw : List ℕ) × (rest : List ℕ) × IsSendable f
    × (encode f ≡ ok raw)
    × (bit_and f.control 0x01 ≡ 1)
    × (text ≡ raw ++ rest)
    × Supervisory fs rest

pub recv_frame-Takes :
    (f : HdlcFrame) (s : Socket) (raw more : List ℕ)
    → IsSendable f
    → encode f ≡ ok raw
    → delivered s ≡ raw ++ more
    → Takes recv_frame s f more
unfolding recv_frame
recv_frame-Takes f s raw more h e d =
    let ((s', run, left, same), decoded) = read_frame-encode f s raw more h e d in
    (s', simp (run, decoded), left, same)

loop_skips :
    (fs : List HdlcFrame) (turns : ℕ) (g : HdlcFrame) (s : Socket) (text raw more : List ℕ)
    → Supervisory fs text
    → IsSendable g
    → encode g ≡ ok raw
    → bit_and g.control 0x01 ≡ 0
    → delivered s ≡ text ++ (raw ++ more)
    → length fs < turns
    → Takes (recv_i_frame_loop turns) s g more
unfolding recv_i_frame_loop
loop_skips fs zero g s text raw more hs hg e even d h = absurd (omega arith)
loop_skips [] (suc turns) g s text raw more hs hg e even d h =
    let (s', run, left, same) =
      recv_frame-Takes g s raw more hg e (d ∙ ap (λ (t : List ℕ). t ++ (raw ++ more)) hs) in
    (s', simp (run, eq→== (bit_and g.control 0x01) 0 even), left, same)
loop_skips (f ∷ fs) (suc turns) g s text raw more (raw₁, rest, hf, e₁, odd, split, hs) hg e even d
      h =
    let (s₁, run₁, left₁, same₁) =
      recv_frame-Takes f s raw₁ (rest ++ (raw ++ more)) hf e₁ (
        d ∙ ap (λ (t : List ℕ). t ++ (raw ++ more)) split ∙ append_assoc raw₁ rest (raw ++ more)) in
    let (s₂, run₂, left₂, same₂) =
      loop_skips fs turns g s₁ rest raw more hs hg e even left₁ (omega arith) in
    (s₂, simp (run₁, ne→== (bit_and f.control 0x01) 0 (omega arith)) run₂, left₂, same₂ ∙ same₁)

loop_gives_up :
    (fs : List HdlcFrame) (turns : ℕ) (s : Socket) (text more : List ℕ)
    → Supervisory fs text
    → delivered s ≡ text ++ more
    → length fs ≡ turns
    → (s' : Socket) × (recv_i_frame_loop turns s ≡ (err (plain gateway_error), s'))
      × (delivered s' ≡ more)
unfolding recv_i_frame_loop
loop_gives_up [] zero s text more hs d h = (s, refl, d ∙ ap (λ (t : List ℕ). t ++ more) hs)
loop_gives_up [] (suc turns) s text more hs d h = absurd (omega arith)
loop_gives_up (f ∷ fs) zero s text more hs d h = absurd (omega arith)
loop_gives_up (f ∷ fs) (suc turns) s text more (raw₁, rest, hf, e₁, odd, split, hs) d h =
    let (s₁, run₁, left₁, same₁) =
      recv_frame-Takes f s raw₁ (rest ++ more) hf e₁
        (d ∙ ap (λ (t : List ℕ). t ++ more) split ∙ append_assoc raw₁ rest more) in
    let (s₂, run₂, left₂) = loop_gives_up fs turns s₁ rest more hs left₁ (omega arith) in
    (s₂, simp (run₁, ne→== (bit_and f.control 0x01) 0 (omega arith)) run₂, left₂)

-- If fewer than twenty supervisory frames come before an I-frame, `_recv_i_frame` returns the
-- I-frame and leaves on the socket what follows it, whatever the chunks.
pub recv_i_frame_skips :
    (fs : List HdlcFrame) (g : HdlcFrame) (s : Socket) (text raw more : List ℕ)
    → Supervisory fs text
    → IsSendable g
    → encode g ≡ ok raw
    → bit_and g.control 0x01 ≡ 0
    → delivered s ≡ text ++ (raw ++ more)
    → length fs < 20
    → Takes recv_i_frame s g more
unfolding recv_i_frame
recv_i_frame_skips fs g s text raw more = loop_skips fs 20 g s text raw more

-- After twenty supervisory frames it raises a `GatewayError` and has read no more than those.
recv_i_frame_gives_up :
    (fs : List HdlcFrame) (s : Socket) (text more : List ℕ)
    → Supervisory fs text
    → delivered s ≡ text ++ more
    → length fs ≡ 20
    → (s' : Socket) × (recv_i_frame s ≡ (err (plain gateway_error), s')) × (delivered s' ≡ more)
unfolding recv_i_frame
recv_i_frame_gives_up fs s text more = loop_gives_up fs 20 s text more
