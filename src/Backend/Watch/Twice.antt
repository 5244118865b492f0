-- ===== src/Backend/Watch/Twice.antt =====
-- The detectors repeated: what they have found they do not find again.
use rise_sun.Common.{ℕ, ◌<◌, ℤ, List, [], ◌∷◌, Bool, true, false, Option, none, some}
use rise_sun.Common.{◌≡◌, refl, ap, if◌then◌else◌, ◌&&◌, lt→ltb, eq→==}
use rise_sun.Common.{Bool-cases, inl, inr, All, arith}
use rise_sun.Backend.Jobs.{JsonValue}
use rise_sun.Backend.Db.{Db, Meter, Notification}
use rise_sun.Backend.Tables.{any}
use rise_sun.Backend.Calls.{Env}
use rise_sun.Backend.Watch.{
  is_online, is_notified_since, offline_notification, notify_once, check_seen, check_meter,
  check_meters, detect_offline, is_low, has_active_status, mark_rows, marked,
  apply_low_consumption_range,
}

-- Whether a meter that is reported offline has a notification since it was seen.
abbrev IsNoted : List Notification → Meter → Option ℕ → Type 0
IsNoted log meter none = Unit {0}
IsNoted log meter (some seen) = any (is_notified_since meter.id seen) log ≡ true

any-more :
    (p : Notification → Bool) (n : Notification) (log : List Notification)
    → any p log ≡ true
    → any p (n ∷ log) ≡ true
unfolding any
any-more p n log h = ground (arith, h)

module _ (env : Env) (timeout now : ℕ) where
  -- The log only grows: what is noted stays noted.
  once-IsNoted :
      (m other : Meter) (seen : ℕ) (o : Option ℕ) (log : List Notification)
      → IsNoted log m o
      → IsNoted (notify_once now other seen log) m o
  once-IsNoted m other seen none log h = tt
  once-IsNoted m other seen (some t) log h = go (any (is_notified_since other.id seen) log)
    where
      go :
          (b : Bool)
          → any (is_notified_since m.id t) (if b then log else offline_notification now other ∷ log)
            ≡ true
      go true = h
      go false = any-more _ (offline_notification now other) log h

  seen-IsNoted :
      (m other : Meter) (o t : Option ℕ) (log : List Notification)
      → IsNoted log m o
      → IsNoted (check_seen env timeout now other t log) m o
  unfolding check_seen
  seen-IsNoted m other o none log h = h
  seen-IsNoted m other o (some seen) log h = elim (Bool-cases (is_online env timeout now other)) [
    | inl e ↦ rw e h
    | inr e ↦ rw e (once-IsNoted m other seen o log h)
  ]

  meter-IsNoted :
      (m other : Meter) (o : Option ℕ) (log : List Notification)
      → IsNoted log m o
      → IsNoted (check_meter env timeout now other log) m o
  unfolding check_meter
  meter-IsNoted m other o log h = elim (Bool-cases other.is_active) [
    | inl e ↦ rw e (seen-IsNoted m other o other.last_seen_at log h)
    | inr e ↦ rw e h
  ]

  meters-IsNoted :
      (m : Meter) (o : Option ℕ) (ms : List Meter) (log : List Notification)
      → IsNoted log m o
      → IsNoted (check_meters env timeout now ms log) m o
  unfolding check_meters
  meters-IsNoted m o [] log h = h
  meters-IsNoted m o (x ∷ xs) log h = meters-IsNoted m o xs _ (meter-IsNoted m x o log h)

  -- A meter that was seen before now.
  abbrev pub IsPast : Option ℕ → Type 0
  IsPast none = Unit {0}
  IsPast (some t) = t < now

  notified_now :
      (m : Meter) (seen : ℕ)
      → seen < now
      → is_notified_since m.id seen (offline_notification now m) ≡ true
  notified_now m seen h = rw (eq→== m.id m.id refl, lt→ltb seen now h) refl

  notifies-IsNoted :
      (m : Meter) (seen : ℕ) (log : List Notification)
      → seen < now
      → any (is_notified_since m.id seen) (notify_once now m seen log) ≡ true
  unfolding any
  notifies-IsNoted m seen log h = elim (Bool-cases (any (is_notified_since m.id seen) log)) [
    | inl e ↦ rw (e, e)
    | inr e ↦ rw (e, notified_now m seen h)
  ]

  -- After its turn, a meter that is offline has its notification.
  turn-IsNoted :
      (m : Meter) (log : List Notification)
      → IsPast m.last_seen_at
      → m.is_active ≡ true
      → is_online env timeout now m ≡ false
      → IsNoted (check_meter env timeout now m log) m m.last_seen_at
  unfolding check_meter check_seen
  turn-IsNoted m log past on off = rw on (go m.last_seen_at past)
    where
      go : (o : Option ℕ) → IsPast o → IsNoted (check_seen env timeout now m o log) m o
      go none h = tt
      go (some seen) h = rw off (notifies-IsNoted m seen log h)

-- One turn at a later time, for a meter that has its notification if it is offline.
turn_again :
    (env : Env) (timeout later : ℕ) (m : Meter) (log : List Notification)
    → (m.is_active ≡ true → is_online env timeout later m ≡ false → IsNoted log m m.last_seen_at)
    → check_meter env timeout later m log ≡ log
unfolding check_meter check_seen
turn_again env timeout later m log noted = elim (Bool-cases m.is_active) [
  | inl on ↦ rw on (go m.last_seen_at (noted on))
  | inr on ↦ rw on
]
  where
    go :
        (o : Option ℕ)
        → (is_online env timeout later m ≡ false → IsNoted log m o)
        → check_seen env timeout later m o log ≡ log
    go none h = refl
    go (some seen) h = elim (Bool-cases (is_online env timeout later m)) [
      | inl e ↦ rw e
      | inr e ↦ rw (e, h e)
    ]

module _ (env : Env) (timeout now later : ℕ) where
  -- No meter has gone offline between the two times.
  abbrev pub StillOnline : Meter → Type 0
  StillOnline m = is_online env timeout later m ≡ false → is_online env timeout now m ≡ false

  abbrev pub SeenBefore : Meter → Type 0
  SeenBefore m = IsPast env timeout now m.last_seen_at

  second_pass :
      (ms : List Meter) (log : List Notification)
      → All
          (λ m.
            m.is_active ≡ true
            → is_online env timeout later m ≡ false
            → IsNoted log m m.last_seen_at)
          ms
      → check_meters env timeout later ms log ≡ log
  unfolding check_meters
  second_pass [] log h = refl
  second_pass (m ∷ ms) log h = rw (turn_again env timeout later m log h.0) (second_pass ms log h.1)

  first_pass :
      (ms : List Meter) (log : List Notification)
      → All SeenBefore ms
      → All StillOnline ms
      → All
          (λ m.
            m.is_active ≡ true
            → is_online env timeout later m ≡ false
            → IsNoted (check_meters env timeout now ms log) m m.last_seen_at)
          ms
  unfolding check_meters
  first_pass [] log past still = tt
  first_pass (m ∷ ms) log past still = (
    λ on off.
        meters-IsNoted env timeout now m m.last_seen_at ms _
          (turn-IsNoted env timeout now m log past.0 on (still.0 off)),
    first_pass ms _ past.1 still.1,
  )

  -- If every meter was last seen before the first pass of the detector and none has gone offline
  -- since, the second pass adds no notification: a meter that stays offline is notified once.
  pub detect_offline_twice :
      (db : Db)
      → All SeenBefore db.meters
      → All StillOnline db.meters
      → detect_offline env timeout later (detect_offline env timeout now db)
        ≡ detect_offline env timeout now db
  unfolding detect_offline
  detect_offline_twice db past still =
      ap (λ log. record db { notifications = log })
        (second_pass db.meters _ (first_pass db.meters db.notifications past still))

-- A meter that has been marked is not found again.
marked_once :
    (p : Meter → Bool) (ms : List Meter)
    → ((m : Meter) → p (marked m) ≡ false)
    → mark_rows p (mark_rows p ms).1 ≡ ([], (mark_rows p ms).1)
unfolding mark_rows
marked_once p [] h = refl
marked_once p (m ∷ ms) h = elim (Bool-cases (p m)) [
  | inl e ↦ rw (e, h m, marked_once p ms h)
  | inr e ↦ rw (e, e, marked_once p ms h)
]

and_false : (a b : Bool) → (a && (b && false)) ≡ false
and_false true true = refl
and_false true false = refl
and_false false b = refl

-- Applying the same range a second time marks no meter and changes nothing.
apply_low_consumption_range_twice :
    (to_float : JsonValue → Option ℤ) (low high : ℤ) (db : Db)
    → apply_low_consumption_range to_float low high
        (apply_low_consumption_range to_float low high db).1
      ≡ ([], (apply_low_consumption_range to_float low high db).1)
unfolding apply_low_consumption_range is_low
apply_low_consumption_range_twice to_float low high db =
    ap (λ (r : List Meter × List Meter). (r.0, record db { meters = r.1 }))
      (marked_once _ db.meters λ m. and_false (has_active_status m) m.is_active)
