-- ===== src/Backend/Tables.antt =====
-- What a query does with the rows of a table, as lists.
pub mod Laws
use rise_sun.Common.{ℕ, zero, suc, ◌+◌, ◌≡◌, ◌≤◌, List, [], ◌∷◌, ◌++◌, Bool, true, false, arith}
use rise_sun.Common.{
  Option, none, some, ◌==◌, if◌then◌else◌, length, All, refl, Bool-cases, inl, inr, ap,
}

module _ {ℓ} {A : Type ℓ} where
  -- The rows that satisfy the condition of a WHERE.
  unfoldable pub where_rows : (A → Bool) → List A → List A
  where_rows p [] = []
  where_rows p (x ∷ xs) = let rest = where_rows p xs in if p x then x ∷ rest else rest

  -- `sum(1 for x in rows if p(x))`.
  unfoldable pub count : (A → Bool) → List A → ℕ
  count p [] = 0
  count p (x ∷ xs) = let rest = count p xs in if p x then suc rest else rest

  unfoldable pub any : (A → Bool) → List A → Bool
  any p [] = false
  any p (x ∷ xs) = let rest = any p xs in if p x then true else rest

  -- The first row of `ORDER BY ... LIMIT 1`, where `before x y` says that x stands strictly
  -- before y. Rows of equal rank keep the order of the table.
  abbrev pub first_of : (A → A → Bool) → A → Option A → Option A
  first_of before x none = some x
  first_of before x (some y) = if before y x then some y else some x

  unfoldable pub first_by : (A → A → Bool) → List A → Option A
  first_by before [] = none
  first_by before (x ∷ xs) = first_of before x (first_by before xs)

  -- The rows in the order of `ORDER BY`.
  unfoldable pub insert_row : (A → A → Bool) → A → List A → List A
  insert_row before x [] = x ∷ []
  insert_row before x (y ∷ ys) =
      let rest = insert_row before x ys in if before y x then y ∷ rest else x ∷ y ∷ ys

  unfoldable pub order_by : (A → A → Bool) → List A → List A
  unfolding insert_row
  order_by before [] = []
  order_by before (x ∷ xs) = insert_row before x (order_by before xs)

  unfoldable pub map_rows {κ} : {B : Type κ} → (A → B) → List A → List B
  map_rows f [] = []
  map_rows f (x ∷ xs) = f x ∷ map_rows f xs

  -- `scalar_one_or_none` on a unique key.
  unfoldable pub find_row : (A → Bool) → List A → Option A
  find_row p [] = none
  find_row p (x ∷ xs) = let rest = find_row p xs in if p x then some x else rest

  -- The update of the rows that satisfy a condition.
  unfoldable pub update_rows : (A → Bool) → (A → A) → List A → List A
  update_rows p f [] = []
  update_rows p f (x ∷ xs) = (if p x then f x else x) ∷ update_rows p f xs

-- `Column.in_(keys)` and `x in keys`.
unfoldable pub is_in : ℕ → List ℕ → Bool
is_in x [] = false
is_in x (k ∷ ks) = let rest = is_in x ks in if k == x then true else rest

-- `{key for ...}`: the distinct keys.
unfoldable pub distinct : List ℕ → List ℕ
unfolding is_in
distinct [] = []
distinct (k ∷ ks) = let rest = distinct ks in if is_in k rest then rest else k ∷ rest
