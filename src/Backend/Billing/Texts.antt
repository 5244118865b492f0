-- ===== src/Backend/Billing/Texts.antt =====
-- Lists of serial numbers, compared as sets.
use rise_sun.Common.{List, [], ◌∷◌, Bool, true, false, ◌≡◌, refl}
use rise_sun.Common.{◌&&◌, arith}
use Prim.Native.String.{String}
use text.Mathlib.TextPositions.{eq_refl}
use rise_sun.Backend.Billing.{has_text, all_in_texts, same_texts}

-- The serial numbers in front of others, in the order in which they are added.
unfoldable pub onto : List String → List String → List String
onto [] acc = acc
onto (s ∷ ss) acc = onto ss (s ∷ acc)

has_text_more :
    (s t : String) (ts : List String) → has_text s ts ≡ true → has_text s (t ∷ ts) ≡ true
unfolding has_text
has_text_more s t ts h = ground (arith, h)

has_text_here : (s : String) (ts : List String) → has_text s (s ∷ ts) ≡ true
unfolding has_text
has_text_here s ts = rw (eq_refl s)

has_text-onto :
    (s : String) (ss acc : List String) → has_text s acc ≡ true → has_text s (onto ss acc) ≡ true
unfolding onto
has_text-onto s [] acc h = h
has_text-onto s (t ∷ ss) acc h = has_text-onto s ss (t ∷ acc) (has_text_more s t acc h)

pub both : (a b : Bool) → a ≡ true → b ≡ true → (a && b) ≡ true
both true b h k = k
both false b h k = h

parts : (a b : Bool) → (a && b) ≡ true → (a ≡ true) × (b ≡ true)
parts true b h = (refl, h)
parts false b h = ground arith

all_more :
    (ss : List String) (t : String) (ts : List String)
    → all_in_texts ss ts ≡ true
    → all_in_texts ss (t ∷ ts) ≡ true
unfolding all_in_texts
all_more [] t ts h = refl
all_more (s ∷ ss) t ts h =
    both _ _ (has_text_more s t ts (parts _ _ h).0) (all_more ss t ts (parts (has_text s ts) _ h).1)

all_self : (ss : List String) → all_in_texts ss ss ≡ true
unfolding all_in_texts
all_self [] = refl
all_self (s ∷ ss) = both _ _ (has_text_here s ss) (all_more ss s ss (all_self ss))

onto_in :
    (ss acc ts : List String)
    → all_in_texts ss ts ≡ true
    → all_in_texts acc ts ≡ true
    → all_in_texts (onto ss acc) ts ≡ true
unfolding onto all_in_texts
onto_in [] acc ts h k = k
onto_in (s ∷ ss) acc ts h k =
    onto_in ss (s ∷ acc) ts (parts (has_text s ts) _ h).1 (both _ _ (parts _ _ h).0 k)

in_onto : (ss acc : List String) → all_in_texts ss (onto ss acc) ≡ true
unfolding onto all_in_texts
in_onto [] acc = refl
in_onto (s ∷ ss) acc =
    both _ _ (has_text-onto s ss (s ∷ acc) (has_text_here s acc)) (in_onto ss (s ∷ acc))

pub onto_same : (ss : List String) → same_texts (onto ss []) ss ≡ true
unfolding all_in_texts
onto_same ss = both _ _ (onto_in ss [] ss (all_self ss) refl) (in_onto ss [])
