-- ===== src/Transport/Delivery.antt =====
-- `recv_exact` depends on the bytes that the socket delivers, and not on how they are cut into
-- chunks.
use rise_sun.Common.{
  ℕ, zero, suc, ◌+◌, ◌-◌, ◌≤◌, ◌<◌, ◌≡◌, refl, ap, ◌∙◌, List, [], ◌∷◌, ◌++◌, arith,
}
use rise_sun.Common.{
  length, take, drop, take-take, drop-take, take-append-drop, length-take, length-drop,
  append_assoc, append-nil,
}
use rise_sun.Common.{le→ltb, lt→ltb}
use rise_sun.Errors.{ErrorCode, ok, err, connection_lost, timeout}
use rise_sun.Bytes.{length-append_bytes}
use rise_sun.Transport.{Socket, chunk, silence, put_back, partial, recv_exact_loop, recv_exact}

-- The bytes that arrive before the first timeout or the end of the connection.
abbrev pub delivered : Socket → List ℕ
delivered [] = []
delivered (silence ∷ s) = []
delivered (chunk b bs ∷ s) = (b ∷ bs) ++ delivered s

-- What comes after them.
abbrev pub ending : Socket → ErrorCode
ending [] = connection_lost
ending (silence ∷ s) = timeout
ending (chunk b bs ∷ s) = ending s

delivered-put_back : (bs : List ℕ) (s : Socket) → delivered (put_back bs s) ≡ bs ++ delivered s
delivered-put_back [] s = refl
delivered-put_back (b ∷ bs) s = refl

ending-put_back : (bs : List ℕ) (s : Socket) → ending (put_back bs s) ≡ ending s
ending-put_back [] s = refl
ending-put_back (b ∷ bs) s = refl

loop_stop :
    (fuel n : ℕ) (buf : List ℕ) (s : Socket)
    → length buf ≡ n
    → recv_exact_loop fuel n buf s ≡ (ok buf, s)
unfolding recv_exact_loop
loop_stop zero n buf s h = rw (le→ltb (length buf) n (omega arith))
loop_stop (suc fuel) n buf s h = rw (le→ltb (length buf) n (omega arith))

-- One turn of the loop on a chunk, `k + 1` bytes before the end.
loop_chunk :
    (fuel k n : ℕ) (buf : List ℕ) (b : ℕ) (bs : List ℕ) (s : Socket)
    → length buf + suc k ≡ n
    → recv_exact_loop (suc fuel) n buf (chunk b bs ∷ s)
      ≡ recv_exact_loop fuel n (buf ++ b ∷ take k bs) (put_back (drop k bs) s)
unfolding recv_exact_loop
loop_chunk fuel k n buf b bs s h = rw (lt→ltb (length buf) n (omega arith), left)
  where
    left : n - length buf ≡ suc k
    left = omega arith

-- The bytes still wanted after a chunk.
abbrev rest_of : ℕ → List ℕ → ℕ
rest_of k bs = k - length (take k bs)

rest_bounds :
    (k n : ℕ) (buf : List ℕ) (b : ℕ) (bs : List ℕ) (s : Socket)
    → length buf + suc k ≡ n
    → length (buf ++ b ∷ take k bs) + rest_of k bs ≡ n
rest_bounds k n buf b bs s h =
    omega (arith, length-append_bytes buf (b ∷ take k bs), length-take k bs)

length-put_back :
    (k : ℕ) (bs : List ℕ) (s : Socket)
    → length (delivered (put_back (drop k bs) s)) ≡ length bs - k + length (delivered s)
length-put_back k bs s =
    ap length (delivered-put_back (drop k bs) s)
    ∙ omega (arith, length-append_bytes (drop k bs) (delivered s), length-drop k bs)

loop_ok :
    (fuel k n : ℕ) (buf : List ℕ) (s : Socket)
    → k ≤ fuel
    → length buf + k ≡ n
    → k ≤ length (delivered s)
    → (s' : Socket) × (recv_exact_loop fuel n buf s ≡ (ok (buf ++ take k (delivered s)), s'))
      × (delivered s' ≡ drop k (delivered s))
      × (ending s' ≡ ending s)
loop_ok fuel zero n buf s hf hn h =
    (s, rw (append-nil buf) (loop_stop fuel n buf s (omega arith)), refl, refl)
loop_ok zero (suc k) n buf s hf hn h = absurd (omega arith)
loop_ok (suc fuel) (suc k) n buf [] hf hn h = absurd (omega arith)
loop_ok (suc fuel) (suc k) n buf (silence ∷ s) hf hn h = absurd (omega arith)
loop_ok (suc fuel) (suc k) n buf (chunk b bs ∷ s) hf hn h =
    let (s', run, left, same) =
      loop_ok fuel (rest_of k bs) n (buf ++ b ∷ take k bs) (put_back (drop k bs) s) (omega arith)
        (rest_bounds k n buf b bs s hn)
        (omega (
          arith,
          h,
          length-put_back k bs s,
          length-append_bytes bs (delivered s),
          length-take k bs,
        )) in
    (
      s',
      loop_chunk fuel k n buf b bs s hn ∙ run ∙ ap (λ (t : List ℕ). (ok t, s')) joined,
      left
          ∙ ap (drop (rest_of k bs)) (delivered-put_back (drop k bs) s)
          ∙ drop-take k bs (delivered s),
      same ∙ ending-put_back (drop k bs) s,
    )
  where
    joined :
        (buf ++ b ∷ take k bs) ++ take (rest_of k bs) (delivered (put_back (drop k bs) s))
        ≡ buf ++ b ∷ take k (bs ++ delivered s)
    joined = rw (
      delivered-put_back (drop k bs) s,
      append_assoc buf (b ∷ take k bs) (take (rest_of k bs) (drop k bs ++ delivered s)),
      take-take k bs (delivered s),
    )

-- If the socket delivers `n` bytes before a timeout or the end of the connection, `recv_exact n`
-- returns the first `n` bytes and leaves the others, whatever the chunks.
pub recv_exact_delivers :
    (n : ℕ) (s : Socket)
    → n ≤ length (delivered s)
    → (s' : Socket) × (recv_exact n s ≡ (ok (take n (delivered s)), s'))
      × (delivered s' ≡ drop n (delivered s))
      × (ending s' ≡ ending s)
unfolding recv_exact
recv_exact_delivers n s h = loop_ok n n n [] s (omega arith) (omega arith) h

loop_closed :
    (fuel n : ℕ) (buf : List ℕ)
    → length buf < n
    → recv_exact_loop (suc fuel) n buf [] ≡ (err (partial connection_lost buf), [])
unfolding recv_exact_loop
loop_closed fuel n buf h = rw (lt→ltb (length buf) n h)

loop_silence :
    (fuel n : ℕ) (buf : List ℕ) (s : Socket)
    → length buf < n
    → recv_exact_loop (suc fuel) n buf (silence ∷ s) ≡ (err (partial timeout buf), s)
unfolding recv_exact_loop
loop_silence fuel n buf s h = rw (lt→ltb (length buf) n h)

loop_short :
    (fuel k n : ℕ) (buf : List ℕ) (s : Socket)
    → k ≤ fuel
    → length buf + k ≡ n
    → length (delivered s) < k
    → (s' : Socket) × (recv_exact_loop fuel n buf s
        ≡ (err (partial (ending s) (buf ++ delivered s)), s'))
loop_short fuel zero n buf s hf hn h = absurd (omega arith)
loop_short zero (suc k) n buf s hf hn h = absurd (omega arith)
loop_short (suc fuel) (suc k) n buf [] hf hn h =
    ([], rw (append-nil buf) (loop_closed fuel n buf (omega arith)))
loop_short (suc fuel) (suc k) n buf (silence ∷ s) hf hn h =
    (s, rw (append-nil buf) (loop_silence fuel n buf s (omega arith)))
loop_short (suc fuel) (suc k) n buf (chunk b bs ∷ s) hf hn h =
    let (s', run) =
      loop_short fuel (rest_of k bs) n (buf ++ b ∷ take k bs) (put_back (drop k bs) s) (omega arith)
        (rest_bounds k n buf b bs s hn)
        (omega (
          arith,
          h,
          length-put_back k bs s,
          length-append_bytes bs (delivered s),
          length-take k bs,
        )) in
    (
      s',
      loop_chunk fuel k n buf b bs s hn
          ∙ run
          ∙ ap
              (λ (c : ErrorCode). (
                err (partial c ((buf ++ b ∷ take k bs) ++ delivered (put_back (drop k bs) s))),
                s',
              ))
              (ending-put_back (drop k bs) s)
          ∙ ap (λ (t : List ℕ). (err (partial (ending s) t), s')) joined,
    )
  where
    joined :
        (buf ++ b ∷ take k bs) ++ delivered (put_back (drop k bs) s)
        ≡ buf ++ b ∷ (bs ++ delivered s)
    joined = rw (
      delivered-put_back (drop k bs) s,
      append_assoc buf (b ∷ take k bs) (drop k bs ++ delivered s),
      ← append_assoc (take k bs) (drop k bs) (delivered s),
      take-append-drop k bs,
    )

-- If fewer than `n` bytes arrive, `recv_exact n` raises the error for what came instead, a timeout
-- or a lost connection, with all the bytes that arrived as its raw frame, and marked partial
-- exactly if there are any.
pub recv_exact_short :
    (n : ℕ) (s : Socket)
    → length (delivered s) < n
    → (s' : Socket) × (recv_exact n s ≡ (err (partial (ending s) (delivered s)), s'))
unfolding recv_exact
recv_exact_short n s h = loop_short n n n [] s (omega arith) (omega arith) h
