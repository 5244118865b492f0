-- ===== src/Backend/Handlers/Replay.antt =====
-- Rows of a load profile that arrive a second time.
use rise_sun.Common.{ℕ, List, [], ◌∷◌, Bool, true, Option, none, some, ◌≡◌, refl}
use rise_sun.Common.{eq→==, Bool-cases, inl, inr, All, arith, ap, sym, ◌∙◌}
use Prim.Native.String.{String}
use text.Mathlib.TextPositions.{eq_refl}
use rise_sun.Backend.Db.{Db, LoadProfileData}
use rise_sun.Backend.Tables.{any}
use rise_sun.Backend.Calls.{Env, Attempt, done, raised, ◌>>=◌, or_raise, LoadProfileRow}
use rise_sun.Backend.Handlers.{
  is_row, insert_load_profile_row, profile_row, insert_row_at, insert_rows,
}

any-cons :
    (p : LoadProfileData → Bool) (x : LoadProfileData) (xs : List LoadProfileData)
    → any p xs ≡ true
    → any p (x ∷ xs) ≡ true
unfolding any
any-cons p x xs h = ground (arith, h)

is_row_refl : (row : LoadProfileData) → is_row row row ≡ true
is_row_refl row =
    rw
      (
        eq→== row.meter_id row.meter_id refl,
        eq_refl row.obis_code,
        eq→== row.timestamp row.timestamp refl,
      )
      refl

inserted_row :
    (row : LoadProfileData) (db : Db)
    → any (is_row row) (insert_load_profile_row row db).load_profile ≡ true
unfolding insert_load_profile_row any
inserted_row row db = elim (Bool-cases (any (is_row row) db.load_profile)) [
  | inl e ↦ rw (e, e)
  | inr e ↦ rw (e, is_row_refl row)
]

insert_keeps :
    (p : LoadProfileData → Bool) (row : LoadProfileData) (db : Db)
    → any p db.load_profile ≡ true
    → any p (insert_load_profile_row row db).load_profile ≡ true
unfolding insert_load_profile_row
insert_keeps p row db h = elim (Bool-cases (any (is_row row) db.load_profile)) [
  | inl e ↦ rw (e, h)
  | inr e ↦ rw e (any-cons p row db.load_profile h)
]

insert_again :
    (row : LoadProfileData) (db : Db)
    → any (is_row row) db.load_profile ≡ true
    → insert_load_profile_row row db ≡ db
unfolding insert_load_profile_row
insert_again row db h = rw h

returned_or : Db → Attempt Db → Db
returned_or db (done last) = last
returned_or db (raised last) = db

done_inj : {a b : Db} → done a ≡ done b → a ≡ b
unfolding returned_or
done_inj {a} e = ap (returned_or a) e

module _ (env : Env) (meter_id : ℕ) (obis : String) (job_id : ℕ) where
  abbrev stored : LoadProfileRow → ℕ → LoadProfileData
  stored row t = profile_row meter_id obis job_id row.values t

  -- The row has a time, and its key is in the table.
  abbrev HasRow : Db → LoadProfileRow → Type 0
  HasRow db row =
      (t : ℕ) × (env.fromisoformat row.timestamp_iso ≡ some t)
      × (any (is_row (stored row t)) db.load_profile ≡ true)

  -- What a first row that can be read comes to.
  read_first :
      (row : LoadProfileRow) (rows : List LoadProfileRow) (db last : Db)
      → insert_rows env meter_id obis job_id (row ∷ rows) db ≡ done last
      → (t : ℕ) × (env.fromisoformat row.timestamp_iso ≡ some t)
        × (insert_rows env meter_id obis job_id rows (insert_load_profile_row (stored row t) db)
            ≡ done last)
  unfolding insert_rows insert_row_at
  read_first row rows db last e = go (env.fromisoformat row.timestamp_iso) e
    where
      go :
          (o : Option ℕ)
          → ((or_raise db o >>= λ t. done (insert_load_profile_row (stored row t) db))
              >>= insert_rows env meter_id obis job_id rows)
            ≡ done last
          → (t : ℕ) × (o ≡ some t)
            × (insert_rows env meter_id obis job_id rows (insert_load_profile_row (stored row t) db)
                ≡ done last)
      go none h = ground arith
      go (some t) h = (t, refl, h)

  rows_keep :
      (p : LoadProfileData → Bool) (rows : List LoadProfileRow) (db last : Db)
      → insert_rows env meter_id obis job_id rows db ≡ done last
      → any p db.load_profile ≡ true
      → any p last.load_profile ≡ true
  unfolding insert_rows
  rows_keep p [] db last e h = ap (λ d. any p d.load_profile) (sym (done_inj e)) ∙ h
  rows_keep p (row ∷ rows) db last e h =
      rows_keep p rows _ last (read_first row rows db last e).2 (insert_keeps p _ db h)

  rows_stored :
      (rows : List LoadProfileRow) (db last : Db)
      → insert_rows env meter_id obis job_id rows db ≡ done last
      → All (HasRow last) rows
  rows_stored [] db last e = tt
  rows_stored (row ∷ rows) db last e = (
    (
      first.0,
      first.1,
      rows_keep (is_row (stored row first.0)) rows _ last first.2 (inserted_row _ db),
    ),
    rows_stored rows _ last first.2,
  )
    where
      first :
          (t : ℕ) × (env.fromisoformat row.timestamp_iso ≡ some t)
          × (insert_rows env meter_id obis job_id rows (insert_load_profile_row (stored row t) db)
              ≡ done last)
      first = read_first row rows db last e

module _ (env : Env) (meter_id : ℕ) (obis : String) (job_id again : ℕ) where
  stored_again :
      (rows : List LoadProfileRow) (db : Db)
      → All (HasRow env meter_id obis job_id db) rows
      → insert_rows env meter_id obis again rows db ≡ done db
  unfolding insert_rows insert_row_at
  stored_again [] db h = refl
  stored_again (row ∷ rows) db h =
      rw (h.0.1, insert_again (profile_row meter_id obis again row.values h.0.0) db h.0.2)
        (stored_again rows db h.1)

  -- Rows that have been stored for a meter and an OBIS code are not stored twice: if storing them
  -- succeeds, then storing them again, for whatever job, leaves the database as it is.
  pub insert_rows_again :
      (rows : List LoadProfileRow) (db last : Db)
      → insert_rows env meter_id obis job_id rows db ≡ done last
      → insert_rows env meter_id obis again rows last ≡ done last
  insert_rows_again rows db last e =
      stored_again rows last (rows_stored env meter_id obis job_id rows db last e)
