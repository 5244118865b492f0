-- ===== src/HdlcDlms/Exchange/Repeat.antt =====
-- How often AARQ is sent.
use rise_sun.Common.{ℕ, zero, suc, ◌<◌, ◌≡◌, refl, List, [], ◌∷◌, true, false, arith}
use rise_sun.Errors.{Error, ok, err, timeout}
use rise_sun.Transport.{Socket, silence, partial, recv_exact}
use rise_sun.Hdlc.Frame.{HdlcFrame, encode, control_disc, control_information_frame}
use rise_sun.Hdlc.Stream.{read_frame_from_transport}
use rise_sun.HdlcDlms.{recv_i_frame, recv_frame}
use rise_sun.HdlcDlms.Register.{Wire, send_i_frame}
use rise_sun.HdlcDlms.Exchange.{
  Options, link_frame, send_attempt, send_aarq_loop, send_aarq_and_await_aare,
}

-- A socket on which `k` reads time out before anything arrives.
abbrev pub silences : ℕ → Socket → Socket
silences zero s = s
silences (suc k) s = silence ∷ silences k s

silent : (s : Socket) → recv_i_frame (silence ∷ s) ≡ (err (partial timeout []), s)
unfolding recv_i_frame recv_frame read_frame_from_transport recv_exact
silent s = refl

-- The options of the usual runs, with any number of attempts.
abbrev pub attempts : ℕ → Options
attempts n = record {
  max_attempts = n;
  send_disc_before_retry = true;
  send_heartbeat_probe = false;
}

-- What was sent, the last first, after `k` repetitions: each is DISC and then AARQ.
abbrev pub repeats : List ℕ → List ℕ → ℕ → List (List ℕ) → List (List ℕ)
repeats disc aarq zero sent = sent
repeats disc aarq (suc k) sent = repeats disc aarq k (aarq ∷ disc ∷ sent)

module _ (server_addr client_addr : ℕ) (information disc aarq : List ℕ)
    (ed : encode (link_frame server_addr client_addr control_disc []) ≡ ok disc)
    (ea : encode (link_frame server_addr client_addr (control_information_frame 0 0) information)
      ≡ ok aarq) where
  attempt_again :
      (m : ℕ) (w : Wire)
      → send_attempt (attempts m) true server_addr client_addr information w
        ≡ (ok tt, record { socket = w.socket; sent = aarq ∷ disc ∷ w.sent })
  unfolding send_attempt send_i_frame
  attempt_again m w = simp (ed, ea)

  attempt_first :
      (m : ℕ) (w : Wire)
      → send_attempt (attempts m) false server_addr client_addr information w
        ≡ (ok tt, record { socket = w.socket; sent = aarq ∷ w.sent })
  unfolding send_attempt send_i_frame
  attempt_first m w = simp ea

  loop_again :
      (k n m : ℕ) (last : Error) (s s' : Socket) (sent : List (List ℕ)) (g : HdlcFrame)
      → recv_i_frame s ≡ (ok g, s')
      → k < n
      → send_aarq_loop n
          (attempts m)
          true
          last
          server_addr
          client_addr
          information
          (record { socket = silences k s; sent = sent })
        ≡ (ok g, record { socket = s'; sent = repeats disc aarq (suc k) sent })
  unfolding send_aarq_loop
  loop_again k zero m last s s' sent g run h = absurd (omega arith)
  loop_again zero (suc n) m last s s' sent g run h =
      simp (attempt_again m (record { socket = s; sent = sent }), run)
  loop_again (suc k) (suc n) m last s s' sent g run h =
      simp
        (
          attempt_again m (record { socket = silence ∷ silences k s; sent = sent }),
          silent (silences k s),
        )
        (loop_again k n m _ s s' (aarq ∷ disc ∷ sent) g run (omega arith))

  loop_first :
      (k n m : ℕ) (last : Error) (s s' : Socket) (sent : List (List ℕ)) (g : HdlcFrame)
      → recv_i_frame s ≡ (ok g, s')
      → k < n
      → send_aarq_loop n
          (attempts m)
          false
          last
          server_addr
          client_addr
          information
          (record { socket = silences k s; sent = sent })
        ≡ (ok g, record { socket = s'; sent = repeats disc aarq k (aarq ∷ sent) })
  unfolding send_aarq_loop
  loop_first k zero m last s s' sent g run h = absurd (omega arith)
  loop_first zero (suc n) m last s s' sent g run h =
      simp (attempt_first m (record { socket = s; sent = sent }), run)
  loop_first (suc k) (suc n) m last s s' sent g run h =
      simp
        (
          attempt_first m (record { socket = silence ∷ silences k s; sent = sent }),
          silent (silences k s),
        )
        (loop_again k n m _ s s' (aarq ∷ sent) g run (omega arith))

  -- If the meter is silent for `k` attempts, fewer than are allowed, and then sends an I-frame,
  -- that frame is returned. AARQ was sent `k + 1` times, with DISC before each repetition.
  pub send_aarq_repeats :
      (k n : ℕ) (s s' : Socket) (sent : List (List ℕ)) (g : HdlcFrame)
      → recv_i_frame s ≡ (ok g, s')
      → k < n
      → send_aarq_and_await_aare
          (attempts n)
          server_addr
          client_addr
          information
          (record { socket = silences k s; sent = sent })
        ≡ (ok g, record { socket = s'; sent = repeats disc aarq k (aarq ∷ sent) })
  unfolding send_aarq_and_await_aare
  send_aarq_repeats k n s s' sent g run h = loop_first k n n _ s s' sent g run h
