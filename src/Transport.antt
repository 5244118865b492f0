-- ===== src/Transport.antt =====
-- gateway/src/mmws_gateway/transport.py: the receiving side of `TcpTransport`. The socket is a
-- parameter in the form of what it will deliver: each `recv` takes from the first chunk, a
-- `timeout` event is a `socket.timeout`, and after the last event the peer has closed.
pub mod Delivery
use rise_sun.Common.{ℕ, zero, suc, ◌-◌, some, List, [], ◌∷◌, ◌++◌, Bool, ltb, if◌then◌else◌}
use rise_sun.Common.{length, take, drop}
use rise_sun.Errors.{
  Error, ErrorCode, Result, ok, err, guard, raised, plain, timeout, connection_lost, gateway_error,
  out_of_fuel,
}

pub data Event : Type 0 where
  -- Bytes that arrive together: the first one and those after it.
  chunk : ℕ → List ℕ → Event
  silence : Event

abbrev pub Socket : Type 0
Socket = List Event

-- A call on the transport: what it returns or raises, and what the socket has left.
abbrev pub Link {ℓ} : Type ℓ → Type ℓ
Link A = Socket → Result A × Socket

module _ {ℓ κ} {A : Type ℓ} {B : Type κ} where
  abbrev pub continue : (A → Link B) → Result A × Socket → Result B × Socket
  continue f (ok a, s) = f a s
  continue f (err e, s) = (err e, s)

  infixl 5 ◌>>=◌
  abbrev pub ◌>>=◌ : Link A → (A → Link B) → Link B
  ◌>>=◌ m f s = continue f (m s)

infixl 5 ◌>>◌
abbrev pub ◌>>◌ {ℓ} : {B : Type ℓ} → Link (Unit {0}) → Link B → Link B
m >> k = m >>= λ _. k

abbrev pub pure {ℓ} : {A : Type ℓ} → A → Link A
pure a s = (ok a, s)

abbrev pub throw {ℓ} : {A : Type ℓ} → Error → Link A
throw e s = (err e, s)

abbrev pub check : Bool → Error → Link (Unit {0})
check b e s = (guard b e, s)

abbrev pub lift {ℓ} : {A : Type ℓ} → Result A → Link A
lift r s = (r, s)

-- What one `recv` returns: bytes, `b""` from a closed connection, or a timeout.
pub data Received : Type 0 where
  bytes : List ℕ → Received
  closed timed_out : Received

-- What is left of a chunk stays in front.
abbrev pub put_back : List ℕ → Socket → Socket
put_back [] s = s
put_back (b ∷ bs) s = chunk b bs ∷ s

pub recv : ℕ → Socket → Received × Socket
recv n [] = (closed, [])
recv n (silence ∷ s) = (timed_out, s)
recv n (chunk b bs ∷ s) = (bytes (take n (b ∷ bs)), put_back (drop n (b ∷ bs)) s)

-- The error of an interrupted read: `is_partial=len(buf) > 0, raw_frame=bytes(buf)`.
abbrev pub partial : ErrorCode → List ℕ → Error
partial c buf = raised (record { code = c; is_partial = ltb 0 (length buf); raw_frame = some buf })

-- The body of `while len(buf) < n`, given the rest of the loop.
abbrev pub resume : (List ℕ → Link (List ℕ)) → List ℕ → Received × Socket → Result (List ℕ) × Socket
resume next buf (bytes bs, s) = next (buf ++ bs) s
resume next buf (closed, s) = (err (partial connection_lost buf), s)
resume next buf (timed_out, s) = (err (partial timeout buf), s)

pub recv_exact_loop : ℕ → ℕ → List ℕ → Link (List ℕ)
unfolding recv
recv_exact_loop zero n buf s = if ltb (length buf) n then (err out_of_fuel, s) else (ok buf, s)
recv_exact_loop (suc fuel) n buf s =
    let rest = resume (recv_exact_loop fuel n) buf (recv (n - length buf) s) in
    if ltb (length buf) n then rest else (ok buf, s)

-- Each turn adds a byte at least, so `n` turns are enough.
unfoldable pub recv_exact : ℕ → Link (List ℕ)
unfolding recv_exact_loop
recv_exact n = recv_exact_loop n n []
