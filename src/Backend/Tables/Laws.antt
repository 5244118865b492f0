-- ===== src/Backend/Tables/Laws.antt =====
-- Laws of queries and updates.
use rise_sun.Common.{==→eq, eq→==, ◌==◌, ap, ◌∙◌}
use rise_sun.Common.{ℕ, zero, suc, ◌≡◌, List, [], ◌∷◌, Bool, true, arith}
use rise_sun.Common.{Option, none, some, All, refl, Bool-cases, inl, inr}
use rise_sun.Common.{take}
use rise_sun.Backend.Tables.{
  where_rows, find_row, update_rows, first_by, first_of, insert_row, order_by,
}

module _ {ℓ} {A : Type ℓ} where
  -- The second of two updates of the same rows is the one that stays.
  pub update_twice :
      (p : A → Bool) (f g : A → A) (xs : List A)
      → ((x : A) → p (f x) ≡ true)
      → update_rows p g (update_rows p f xs) ≡ update_rows p (λ x. g (f x)) xs
  unfolding update_rows
  update_twice p f g [] h = refl
  update_twice p f g (x ∷ xs) h = elim (Bool-cases (p x)) [
    | inl e ↦ rw (e, h x, update_twice p f g xs h)
    | inr e ↦ rw (e, e, update_twice p f g xs h)
  ]

  pub All-update_rows {κ} :
      (P : A → Type κ) (p : A → Bool) (f : A → A) (xs : List A)
      → ((x : A) → p x ≡ true → P x → P (f x))
      → All P xs
      → All P (update_rows p f xs)
  unfolding update_rows
  All-update_rows P p f [] h all = tt
  All-update_rows P p f (x ∷ xs) h all = elim (Bool-cases (p x)) [
    | inl e ↦ rw e (h x e all.0, All-update_rows P p f xs h all.1)
    | inr e ↦ rw e (all.0, All-update_rows P p f xs h all.1)
  ]

  pub All-find_row {κ} :
      (P : A → Type κ) (p : A → Bool) (xs : List A) (x : A)
      → find_row p xs ≡ some x
      → All P xs
      → P x
  unfolding find_row
  All-find_row P p [] x e all = ground arith
  All-find_row P p (y ∷ ys) x e all = elim (Bool-cases (p y)) [
    | inl c ↦ ground (arith, all.0)
    | inr c ↦ All-find_row P p ys x (ground arith) all.1
  ]

  pub All-where_rows {κ} :
      (P : A → Type κ) (p : A → Bool) (xs : List A)
      → All P xs
      → All (λ x. P x × (p x ≡ true)) (where_rows p xs)
  unfolding where_rows
  All-where_rows P p [] all = tt
  All-where_rows P p (x ∷ xs) all = elim (Bool-cases (p x)) [
    | inl e ↦ rw e ((all.0, e), All-where_rows P p xs all.1)
    | inr e ↦ rw e (All-where_rows P p xs all.1)
  ]

  pub All-first_by {κ} :
      (P : A → Type κ) (before : A → A → Bool) (xs : List A) (x : A)
      → first_by before xs ≡ some x
      → All P xs
      → P x
  unfolding first_by
  All-first_by P before [] x e all = ground arith
  All-first_by P before (y ∷ ys) x e all = go (first_by before ys) e (All-first_by P before ys)
    where
      go :
          (o : Option A)
          → first_of before y o ≡ some x
          → ((z : A) → o ≡ some z → All P ys → P z)
          → P x
      go none e h = ground (arith, all.0)
      go (some z) e h = elim (Bool-cases (before z y)) [
        | inl c ↦ ground (arith, h z refl all.1)
        | inr c ↦ ground (arith, all.0)
      ]

  -- What is found satisfies the condition.
  pub find_row-holds : (p : A → Bool) (xs : List A) (x : A) → find_row p xs ≡ some x → p x ≡ true
  unfolding find_row
  find_row-holds p [] x e = ground arith
  find_row-holds p (y ∷ ys) x e = elim (Bool-cases (p y)) [
    | inl c ↦ ground arith
    | inr c ↦ find_row-holds p ys x (ground arith)
  ]

  -- After an update of the rows that are looked for, the new row is found.
  pub find_row-update_rows :
      (p : A → Bool) (y : A) (xs : List A) (x : A)
      → p y ≡ true
      → find_row p xs ≡ some x
      → find_row p (update_rows p (λ z. y) xs) ≡ some y
  unfolding find_row update_rows
  find_row-update_rows p y [] x h e = ground arith
  find_row-update_rows p y (z ∷ zs) x h e = elim (Bool-cases (p z)) [
    | inl c ↦ ground arith
    | inr c ↦ rw (c, c) (find_row-update_rows p y zs x h (ground arith))
  ]

  pub All-take {κ} : (P : A → Type κ) (n : ℕ) (xs : List A) → All P xs → All P (take n xs)
  All-take P zero xs all = tt
  All-take P (suc n) [] all = tt
  All-take P (suc n) (x ∷ xs) all = (all.0, All-take P n xs all.1)

  All-insert_row {κ} :
      (P : A → Type κ) (before : A → A → Bool) (x : A) (xs : List A)
      → P x
      → All P xs
      → All P (insert_row before x xs)
  unfolding insert_row
  All-insert_row P before x [] h all = (h, tt)
  All-insert_row P before x (y ∷ ys) h all = elim (Bool-cases (before y x)) [
    | inl e ↦ rw e (all.0, All-insert_row P before x ys h all.1)
    | inr e ↦ rw e (h, all)
  ]

  pub All-order_by {κ} :
      (P : A → Type κ) (before : A → A → Bool) (xs : List A) → All P xs → All P (order_by before xs)
  unfolding order_by
  All-order_by P before [] all = tt
  All-order_by P before (x ∷ xs) all =
      All-insert_row P before x _ all.0 (All-order_by P before xs all.1)

  -- A row that is rewritten under its key is found in its place.
  pub find_row-rewritten :
      (key_of : A → ℕ) (key : ℕ) (xs : List A) (x new : A)
      → find_row (λ r. key_of r == key) xs ≡ some x
      → key_of new ≡ key_of x
      → find_row (λ r. key_of r == key) (update_rows (λ r. key_of r == key_of x) (λ r. new) xs)
        ≡ some new
  find_row-rewritten key_of key xs x new e same =
      ap (λ k. find_row (λ r. key_of r == key) (update_rows (λ r. key_of r == k) (λ r. new) xs)) its
      ∙ find_row-update_rows (λ r. key_of r == key) new xs x (eq→== _ _ (same ∙ its)) e
    where
      its : key_of x ≡ key
      its = ==→eq _ _ (find_row-holds (λ r. key_of r == key) xs x e)
