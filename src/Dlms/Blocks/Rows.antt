-- ===== src/Dlms/Blocks/Rows.antt =====
-- Cutting the buffer of a load profile into rows loses nothing from the first marker on.
use rise_sun.Common.{
  ℕ, zero, suc, ◌-◌, ◌≤◌, ◌≡◌, refl, ap, ◌∙◌, List, [], ◌∷◌, ◌++◌, arith, Bool, true, false,
  if◌then◌else◌,
}
use rise_sun.Common.{take, drop, take-append-drop, append_assoc}
use rise_sun.Bytes.{slice}
use rise_sun.DataTypes.Encode.{join}
use rise_sun.Dlms.Blocks.{
  markers_from, rows_between, split_load_profile_rows, starts_with_marker, split_at,
}

-- Positions in ascending order.
abbrev Ascending : ℕ → List ℕ → Type 0
Ascending low [] = Unit {0}
Ascending low (p ∷ ps) = (low ≤ p) × Ascending (suc p) ps

later-Ascending : (low low' : ℕ) (ps : List ℕ) → low ≤ low' → Ascending low' ps → Ascending low ps
later-Ascending low low' [] h p = tt
later-Ascending low low' (x ∷ ps) h (p, q) = (omega arith, q)

if-Ascending :
    (b : Bool) (low at : ℕ) (ps : List ℕ)
    → low ≤ at
    → Ascending (suc at) ps
    → Ascending low (if b then at ∷ ps else ps)
if-Ascending true low at ps h p = (h, p)
if-Ascending false low at ps h p = later-Ascending low (suc at) ps (omega arith) p

markers-Ascending : (bs : List ℕ) (at low : ℕ) → low ≤ at → Ascending low (markers_from at bs)
unfolding markers_from
markers-Ascending [] at low h = tt
markers-Ascending (b ∷ bs) at low h =
    if-Ascending (starts_with_marker (b ∷ bs)) low at (markers_from (suc at) bs) h
      (markers-Ascending bs (suc at) (suc at) (omega arith))

take_nil : (n : ℕ) → take {A = ℕ} n [] ≡ []
take_nil zero = refl
take_nil (suc n) = refl

drop-slice : (a b : ℕ) (xs : List ℕ) → a ≤ b → slice a b xs ++ drop b xs ≡ drop a xs
drop-slice zero b xs h = rw same (take-append-drop b xs)
  where
    same : b - 0 ≡ b
    same = omega arith
drop-slice (suc a) zero xs h = absurd (omega arith)
drop-slice (suc a) (suc b) [] h = rw (take_nil (suc b - suc a)) refl
drop-slice (suc a) (suc b) (x ∷ xs) h = rw same (drop-slice a b xs (omega arith))
  where
    same : suc b - suc a ≡ b - a
    same = omega arith

-- The rows and the remainder behind one another.
abbrev pub reassembled : List (List ℕ) × List ℕ → List ℕ
reassembled (rows, remainder) = join rows ++ remainder

between_join :
    (buf : List ℕ) (first : ℕ) (others : List ℕ)
    → Ascending first others
    → reassembled (rows_between buf first others) ≡ drop first buf
unfolding rows_between
between_join buf first [] h = refl
between_join buf first (second ∷ others) (h, more) =
    append_assoc (slice first second buf) (join (rows_between buf second others).0)
      (rows_between buf second others).1
    ∙ ap (λ (t : List ℕ). slice first second buf ++ t)
        (between_join buf second others
          (later-Ascending second (suc second) others (omega arith) more))
    ∙ drop-slice first second buf h

-- Where the rows begin: at the first marker, if there are two.
abbrev pub start_of : List ℕ → ℕ
start_of [] = 0
start_of (only ∷ []) = 0
start_of (first ∷ second ∷ others) = first

split_at_join :
    (buf ps : List ℕ) → Ascending 0 ps → reassembled (split_at buf ps) ≡ drop (start_of ps) buf
unfolding rows_between
split_at_join buf [] h = refl
split_at_join buf (only ∷ []) h = refl
split_at_join buf (first ∷ second ∷ others) (h, more) =
    between_join buf first (second ∷ others)
      (later-Ascending first (suc first) (second ∷ others) (omega arith) more)

start_first : (ps : List ℕ) → start_of (0 ∷ ps) ≡ 0
start_first [] = refl
start_first (p ∷ ps) = refl

start_marked : (bs : List ℕ) → starts_with_marker bs ≡ true → start_of (markers_from 0 bs) ≡ 0
unfolding markers_from
start_marked [] h = refl
start_marked (b ∷ bs) h = rw h (start_first (markers_from 1 bs))

-- The rows and the remainder, one behind the other, are the buffer from some position on; for a
-- buffer that starts with a marker they are the whole buffer.
pub split_load_profile_rows-join :
    (buf : List ℕ)
    → (n : ℕ) × (reassembled (split_load_profile_rows buf) ≡ drop n buf)
      × (starts_with_marker buf ≡ true → reassembled (split_load_profile_rows buf) ≡ buf)
unfolding split_load_profile_rows
split_load_profile_rows-join buf = (
  start_of (markers_from 0 buf),
  split_at_join buf (markers_from 0 buf) (markers-Ascending buf 0 0 (omega arith)),
  λ marked.
      split_at_join buf (markers_from 0 buf) (markers-Ascending buf 0 0 (omega arith))
      ∙ ap (λ (n : ℕ). drop n buf) (start_marked buf marked),
)
