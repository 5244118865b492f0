-- ===== src/DataTypes/Totality.antt =====
-- `decode_value` ends on every input and never claims more bytes than there are.
use rise_sun.Common.{
  ℕ, zero, suc, ◌+◌, ◌-◌, ◌≤◌, ◌<◌, ◌≡◌, ◌≢◌, refl, List, [], ◌∷◌, Bool, true, false, arith,
}
use rise_sun.Common.{length, take, drop, length-drop}
use rise_sun.Common.{ℤ, ◌⊎◌, inl, inr, if◌then◌else◌}
use rise_sun.Errors.{Error, Result, ok, err, out_of_fuel, ◌>>=◌, dlms_data_error}
use rise_sun.Bytes.{from_bytes_signed, byte_at}
use rise_sun.DataTypes.Date.{decode_cosem_date_time, datetime}
use rise_sun.DataTypes.Decode.{
  Value, Values, decode_items, none_value, decode_list, require, unsigned_value, decode_text,
  decode_date, fixed, decode_tag, decode_from, decode_value,
}

-- A decoder of values: it stays within the bytes that it is given, and takes one at least.
abbrev Bounded : (List ℕ → Result (Value × ℕ)) → Type 0
Bounded f = (xs : List ℕ) (v : Value) (n : ℕ) → f xs ≡ ok (v, n) → (1 ≤ n) × (n ≤ length xs)

-- What a call in a chain must have given.
pub bind-ok :
    {A B : Type 0} (m : Result A) (f : A → Result B) (b : B)
    → (m >>= f) ≡ ok b
    → (a : A) × (m ≡ ok a) × (f a ≡ ok b)
bind-ok (ok a) f b e = (a, refl, e)
bind-ok (err x) f b e = ground arith

items-Bounded :
    (f : List ℕ → Result (Value × ℕ))
    → Bounded f
    → (count : ℕ) (raw : List ℕ) (at : ℕ) (vs : Values) (end : ℕ) → at ≤ length raw
    → decode_items f count raw at ≡ ok (vs, end)
    → (at ≤ end) × (end ≤ length raw)
unfolding decode_items
items-Bounded f h zero raw at vs end p e = ground arith
items-Bounded f h (suc count) raw at vs end p e =
    let ((item, consumed), e₁, e₂) = bind-ok (f (drop at raw)) _ (vs, end) e in
    let ((items, end'), e₃, e₄) =
      bind-ok (decode_items f count raw (at + consumed)) _ (vs, end) e₂ in
    let (one, most) = h (drop at raw) item consumed e₁ in
    let (low, high) =
      items-Bounded f h count raw (at + consumed) items end' (omega (arith, length-drop at raw))
        e₃ in
    ground arith

fixed_bounded :
    (n : ℕ) (convert : List ℕ → _) (rest : List ℕ) (v : Value) (k : ℕ)
    → fixed n convert rest ≡ ok (v, k)
    → (1 ≤ k) × (k ≤ suc (length rest))
fixed_bounded n convert rest v k e = ground arith

text_bounded :
    (b : Bool) (rest : List ℕ) (v : Value) (k : ℕ)
    → decode_text b rest ≡ ok (v, k)
    → (1 ≤ k) × (k ≤ suc (length rest))
text_bounded b rest v k e = ground arith

date_bounded :
    (rest : List ℕ) (v : Value) (k : ℕ)
    → decode_date rest ≡ ok (v, k)
    → (1 ≤ k) × (k ≤ suc (length rest))
date_bounded rest v k e = ground arith

list-Bounded :
    (f : List ℕ → Result (Value × ℕ))
    → Bounded f
    → (rest : List ℕ) (v : Value) (k : ℕ) → decode_list f rest ≡ ok (v, k)
    → (1 ≤ k) × (k ≤ suc (length rest))
list-Bounded f h rest v k e =
    let (tt', e₁, e₂) = bind-ok (require rest 1) _ (v, k) e in
    let (count, e₃, e₄) = bind-ok (byte_at rest 0) _ (v, k) e₂ in
    let ((items, end), e₅, e₆) = bind-ok (decode_items f count (drop 1 rest) 0) _ (v, k) e₄ in
    ground (
      arith,
      items-Bounded f h count (drop 1 rest) 0 items end (omega arith) e₅,
      length-drop 1 rest,
    )

tag-Bounded :
    (f : List ℕ → Result (Value × ℕ))
    → Bounded f
    → (tag : ℕ) (rest : List ℕ) (v : Value) (n : ℕ) → decode_tag f tag rest ≡ ok (v, n)
    → (1 ≤ n) × (n ≤ suc (length rest))
unfolding decode_tag
tag-Bounded f h tag rest v n e = ground (
  arith,
  list-Bounded f h rest v n,
  text_bounded true rest v n,
  text_bounded false rest v n,
  date_bounded rest v n,
)

from-Bounded : (fuel : ℕ) → Bounded (decode_from fuel)
unfolding decode_from
from-Bounded zero xs v n e = ground arith
from-Bounded (suc fuel) [] v n e = ground arith
from-Bounded (suc fuel) (tag ∷ rest) v n e =
    tag-Bounded (decode_from fuel) (from-Bounded fuel) tag rest v n e

-- A decoder that has enough fuel for every text shorter than a bound.
abbrev Ends : ℕ → (List ℕ → Result (Value × ℕ)) → Type 0
Ends bound f = (xs : List ℕ) → length xs < bound → f xs ≢ err out_of_fuel

bind-err :
    {A B : Type 0} (m : Result A) (f : A → Result B) (x : Error)
    → (m >>= f) ≡ err x
    → (m ≡ err x) ⊎ ((a : A) × (m ≡ ok a) × (f a ≡ err x))
bind-err (ok a) f x e = inr (a, refl, e)
bind-err (err y) f x e = inl (ground arith)

items_end :
    (f : List ℕ → Result (Value × ℕ)) (count : ℕ) (raw : List ℕ) (at bound : ℕ)
    → length raw < bound
    → Ends bound f
    → decode_items f count raw at ≢ err out_of_fuel
unfolding decode_items
items_end f zero raw at bound p h e = ground arith
items_end f (suc count) raw at bound p h e = elim (bind-err (f (drop at raw)) _ out_of_fuel e) [
  | inl stopped ↦ h (drop at raw) (omega (arith, length-drop at raw)) stopped
  | inr ((item, consumed), e₁, e₂) ↦
      elim (bind-err (decode_items f count raw (at + consumed)) _ out_of_fuel e₂) [
        | inl stopped ↦ items_end f count raw (at + consumed) bound p h stopped
        | inr (more, e₃, e₄) ↦ ground arith
      ]
]

fixed_ends : (n : ℕ) (convert : List ℕ → ℤ) (rest : List ℕ) → fixed n convert rest ≢ err out_of_fuel
fixed_ends n convert rest e = ground arith

text_ends : (b : Bool) (rest : List ℕ) → decode_text b rest ≢ err out_of_fuel
text_ends true rest e = ground arith
text_ends false rest e = ground arith

cosem_ends : (raw : List ℕ) → decode_cosem_date_time raw ≢ err out_of_fuel
unfolding decode_cosem_date_time datetime
cosem_ends raw e = ground arith

date_ends : (rest : List ℕ) → decode_date rest ≢ err out_of_fuel
date_ends rest e = ground (arith, cosem_ends (take 12 rest))

list-Ends :
    (f : List ℕ → Result (Value × ℕ)) (rest : List ℕ)
    → Ends (length rest + 1) f
    → decode_list f rest ≢ err out_of_fuel
list-Ends f rest h e = elim (bind-err (require rest 1) _ out_of_fuel e) [
  | inl stopped ↦ ground arith
  | inr (u, e₁, e₂) ↦ elim (bind-err (byte_at rest 0) _ out_of_fuel e₂) [
    | inl stopped ↦ ground arith
    | inr (count, e₃, e₄) ↦
        elim (bind-err (decode_items f count (drop 1 rest) 0) _ out_of_fuel e₄) [
          | inl stopped ↦
              items_end f count (drop 1 rest) 0 (length rest + 1)
                (omega (arith, length-drop 1 rest)) h stopped
          | inr (items, e₅, e₆) ↦ ground arith
        ]
  ]
]

null_ends : ◌≢◌ {A = Result (Value × ℕ)} (ok (none_value, 1)) (err out_of_fuel)
null_ends e = ground arith

unknown_ends : ◌≢◌ {A = Result (Value × ℕ)} (err dlms_data_error) (err out_of_fuel)
unknown_ends e = ground arith

if_ends :
    (b : Bool) (x y : Result (Value × ℕ))
    → x ≢ err out_of_fuel
    → y ≢ err out_of_fuel
    → (if b then x else y) ≢ err out_of_fuel
if_ends true x y p q = p
if_ends false x y p q = q

tag-Ends :
    (f : List ℕ → Result (Value × ℕ)) (tag : ℕ) (rest : List ℕ)
    → Ends (length rest + 1) f
    → decode_tag f tag rest ≢ err out_of_fuel
unfolding decode_tag
tag-Ends f tag rest h = if_ends _ _ _ null_ends (
    if_ends _ _ _ (fixed_ends 4 unsigned_value rest) (
      if_ends _ _ _ (fixed_ends 4 from_bytes_signed rest) (
        if_ends _ _ _ (fixed_ends 8 unsigned_value rest) (
          if_ends _ _ _ (fixed_ends 8 from_bytes_signed rest) (
            if_ends _ _ _ (fixed_ends 2 unsigned_value rest) (
              if_ends _ _ _ (fixed_ends 2 from_bytes_signed rest) (
                if_ends _ _ _ (fixed_ends 1 unsigned_value rest) (
                  if_ends _ _ _ (fixed_ends 1 from_bytes_signed rest) (
                    if_ends _ _ _ (text_ends false rest) (
                      if_ends _ _ _ (text_ends true rest) (
                        if_ends _ _ _ (list-Ends f rest h)
                          (if_ends _ _ _ (date_ends rest) unknown_ends))))))))))))

from-Ends : (fuel : ℕ) → Ends fuel (decode_from fuel)
unfolding decode_from
from-Ends zero xs p e = absurd (omega arith)
from-Ends (suc fuel) [] p e = ground arith
from-Ends (suc fuel) (tag ∷ rest) p e =
    tag-Ends (decode_from fuel) tag rest (λ xs q. from-Ends fuel xs (omega (arith, p))) e

-- `decode_value` ends on every input, however its lists are nested: the model's fuel is always
-- enough. What it returns for a value is a length of at least one byte and at most what there is
-- from the offset on.
pub decode_value_bounded :
    (raw : List ℕ) (offset : ℕ)
    → (decode_value raw offset ≢ err out_of_fuel)
      × ((v : Value) (n : ℕ)
          → decode_value raw offset ≡ ok (v, n)
          → (1 ≤ n) × (n ≤ length raw - offset))
unfolding decode_value
decode_value_bounded raw offset = (
  from-Ends (suc (length raw)) (drop offset raw) (omega (arith, length-drop offset raw)),
  λ v n e. rw (length-drop offset raw) at (from-Bounded (suc (length raw)) (drop offset raw) v n e),
)
