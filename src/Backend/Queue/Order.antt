-- ===== src/Backend/Queue/Order.antt =====
-- Which job `_claim_next_job` takes, by one rank.
use rise_sun.Common.{ℕ, List, [], ◌∷◌, Bool, true, false, Option, none, some, ltb, ◌==◌, ◌&&◌, ◌||◌}
use rise_sun.Common.{if◌then◌else◌, ◌≡◌, refl, Bool-cases, inl, inr, sym}
use rise_sun.Backend.Jobs.{Job}
use rise_sun.Backend.Db.{Db}
use rise_sun.Backend.Tables.{where_rows, first_by, first_of}
use rise_sun.Backend.Queue.{
  is_priority, claimable_jobs, earlier, run_tier, tier, by_tier, first_found, select_next_job,
}

-- A command of the operator first, then other jobs asked for by hand, then those of schedules.
abbrev pub rank : Job → ℕ
rank job = if is_priority job then 0 else if tier job == 0 then 1 else 2

abbrev pub by_rank : Job → Job → Bool
by_rank a b = ltb (rank a) (rank b) || ((rank a == rank b) && earlier a b)

-- Two orders, the first for the rows that satisfy `p`, which stand before all others.
module _ {ℓ} {A : Type ℓ} (p : A → Bool) (first second best : A → A → Bool) where
  -- What the three queries have found: the first one, the second one on all rows, and the one query
  -- for which they stand.
  abbrev pub Agree : Option A → Option A → Option A → Type ℓ
  Agree none none r = r ≡ none
  Agree none (some y) r = (p y ≡ false) × (r ≡ some y)
  Agree (some y) other r = (p y ≡ true) × (r ≡ some y)

  pub record IsTwoLevel : Type ℓ where
    pub within_first : (x y : A) → p x ≡ true → p y ≡ true → best y x ≡ first y x
    pub within_second : (x y : A) → p x ≡ false → p y ≡ false → best y x ≡ second y x
    pub before_second : (x y : A) → p x ≡ false → p y ≡ true → best y x ≡ true
    pub behind_first : (x y : A) → p x ≡ true → p y ≡ false → best y x ≡ false

  either_first :
      (c : Bool) (x y : A) (b : Option A)
      → p x ≡ true
      → p y ≡ true
      → Agree (if c then some y else some x) b (if c then some y else some x)
  either_first true x y b e d = (d, refl)
  either_first false x y b e d = (e, refl)

  either_second :
      (c : Bool) (x y : A)
      → p x ≡ false
      → p y ≡ false
      → Agree none (if c then some y else some x) (if c then some y else some x)
  either_second true x y e d = (d, refl)
  either_second false x y e d = (e, refl)

  Agree-first_found : (a b r : Option A) → Agree a b r → first_found a b ≡ r
  Agree-first_found none none r g = sym g
  Agree-first_found none (some y) r g = sym g.1
  Agree-first_found (some y) b r g = sym g.1

  module _ (h : IsTwoLevel) where
    add_first :
        (x : A) (a b b' r : Option A)
        → p x ≡ true
        → Agree a b r
        → Agree (first_of first x a) b' (first_of best x r)
    add_first x none none b' r e g = rw g (e, refl)
    add_first x none (some y) b' r e g = rw (g.1, h.behind_first x y e g.0) (e, refl)
    add_first x (some y) b b' r e g =
        rw (g.1, h.within_first x y e g.0) (either_first (first y x) x y b' e g.0)

    add_second :
        (x : A) (a b r : Option A)
        → p x ≡ false
        → Agree a b r
        → Agree a (first_of second x b) (first_of best x r)
    add_second x none none r e g = rw g (e, refl)
    add_second x none (some y) r e g =
        rw (g.1, h.within_second x y e g.0) (either_second (second y x) x y e g.0)
    add_second x (some y) b r e g = rw (g.1, h.before_second x y e g.0) (g.0, refl)

    first_by-Agree :
        (xs : List A)
        → Agree (first_by first (where_rows p xs)) (first_by second xs) (first_by best xs)
    unfolding where_rows first_by
    first_by-Agree [] = refl
    first_by-Agree (x ∷ xs) = elim (Bool-cases (p x)) [
      | inl e ↦ rw e (add_first x _ _ _ _ e (first_by-Agree xs))
      | inr e ↦ rw e (add_second x _ _ _ e (first_by-Agree xs))
    ]

    first_by_two_levels :
        (xs : List A)
        → first_found (first_by first (where_rows p xs)) (first_by second xs) ≡ first_by best xs
    first_by_two_levels xs = Agree-first_found _ _ _ (first_by-Agree xs)

other_rank : Option ℕ → ℕ
other_rank run = if run_tier run == 0 then 1 else 2

other_ranks :
    (a b : Option ℕ) (c : Bool)
    → (ltb (other_rank a) (other_rank b) || ((other_rank a == other_rank b) && c))
      ≡ (ltb (run_tier a) (run_tier b) || ((run_tier a == run_tier b) && c))
unfolding other_rank
other_ranks none none c = refl
other_ranks none (some b) c = refl
other_ranks (some a) none c = refl
other_ranks (some a) (some b) c = refl

command_before :
    (b : Option ℕ) (c : Bool) → (ltb 0 (other_rank b) || ((0 == other_rank b) && c)) ≡ true
unfolding other_rank
command_before none c = refl
command_before (some b) c = refl

behind_command :
    (b : Option ℕ) (c : Bool) → (ltb (other_rank b) 0 || ((other_rank b == 0) && c)) ≡ false
unfolding other_rank
behind_command none c = refl
behind_command (some b) c = refl

by_rank-IsTwoLevel : IsTwoLevel is_priority earlier by_tier by_rank
unfolding other_rank
by_rank-IsTwoLevel = record {
  within_first = λ x y e d. rw (e, d) refl;
  within_second = λ x y e d.
      rw (e, d) (other_ranks y.scheduled_job_run_id x.scheduled_job_run_id (earlier y x));
  before_second = λ x y e d. rw (e, d) (command_before x.scheduled_job_run_id (earlier y x));
  behind_first = λ x y e d. rw (e, d) (behind_command y.scheduled_job_run_id (earlier y x));
}

pub select_next_job_lem :
    (locked : ℕ → Bool) (db : Db)
    → select_next_job locked db ≡ first_by by_rank (claimable_jobs locked db)
unfolding select_next_job
select_next_job_lem locked db =
    first_by_two_levels is_priority earlier by_tier by_rank by_rank-IsTwoLevel
      (claimable_jobs locked db)
