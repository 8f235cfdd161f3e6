-- ===== src/Maintenance/Recurrence/Local.antt =====
-- localTime: a civil time, resolved to the first instant that reads so.
use cairnops.Common.{
  ℕ, ◌+◌, ◌-◌, ◌*◌, ◌/◌, ◌≤◌, ◌≡◌, ◌≢◌, refl, subst, Bool, true, false, ◌||◌, ◌&&◌, ltb, ltb-false,
  ◌==◌, ◌⊎◌, inl, inr, Bool-cases, ==_refl, some, List, [], ◌∷◌, arith,
}
use cairnops.Common.Int.{ℤ, pos, negsuc, pos_part, neg_part}
use cairnops.Maintenance.Recurrence.{
  second, hour, day, zero_time, Zone, ahead, behind, in_zone, offsets, reads_as, consider,
  first_fitting, local_time,
}

-- No zone is a day or more from UTC.
abbrev pub IsBounded : Zone → Type 0
IsBounded zone = (t : ℕ) → pos_part (zone t) + neg_part (zone t) ≤ 86400

abbrev pub IsAmong : ℤ → List ℤ → Type 0
IsAmong o [] = ⊥
IsAmong o (p ∷ os) = (o ≡ p) ⊎ IsAmong o os

behind-ahead :
    (o : ℤ) (t : ℕ) → pos_part o + neg_part o ≤ 86400 → day ≤ t → behind o (ahead o t) ≡ t
unfolding behind ahead
behind-ahead (pos n) t b h = omega arith
behind-ahead (negsuc n) t b h = omega arith

-- Offsets are whole seconds, so a reading that agrees to the second agrees.
same_reading :
    (o p : ℤ) (civil : ℕ)
    → pos_part o + neg_part o ≤ 86400
    → pos_part p + neg_part p ≤ 86400
    → 2 * day ≤ civil
    → ahead p (behind o civil) / second ≡ civil / second
    → ahead p (behind o civil) ≡ civil
unfolding ahead behind
same_reading (pos n) (pos m) civil b c h e = omega arith
same_reading (pos n) (negsuc m) civil b c h e = omega arith
same_reading (negsuc n) (pos m) civil b c h e = omega arith
same_reading (negsuc n) (negsuc m) civil b c h e = omega arith

module _ (zone : Zone) (civil : ℕ) (bounded : IsBounded zone)
    (late : zero_time + 2 * day ≤ civil) where
  -- A candidate of the loop is the zero time or reads as the civil time.
  abbrev Fits : ℕ → Type 0
  Fits t = (t ≡ zero_time) ⊎ (in_zone zone t ≡ civil)

  better : ℕ → ℤ → Bool
  better first o =
      reads_as zone civil (behind o civil) && (first == zero_time || ltb (behind o civil) first)

  reads : (first : ℕ) (o : ℤ) → better first o ≡ true → reads_as zone civil (behind o civil) ≡ true
  unfolding better
  reads first o e = ground arith

  behind-Fits :
      (o : ℤ)
      → pos_part o + neg_part o ≤ 86400
      → reads_as zone civil (behind o civil) ≡ true
      → Fits (behind o civil)
  unfolding reads_as
  behind-Fits o b h = inr (
      same_reading o (zone (behind o civil)) civil b (bounded (behind o civil)) (omega arith)
        (ground arith))

  -- What is kept: the candidate, or the first one so far.
  considered :
      (P : ℕ → Type 0) (first : ℕ) (o : ℤ)
      → (better first o ≡ true → P (behind o civil))
      → (better first o ≡ false → P first)
      → P (consider zone civil first o)
  unfolding consider better
  considered P first o h k = elim (Bool-cases (better first o)) [
    | inl e ↦ rw e (h e)
    | inr e ↦ rw e (k e)
  ]

  consider-Fits :
      (first : ℕ) (o : ℤ)
      → pos_part o + neg_part o ≤ 86400
      → Fits first
      → Fits (consider zone civil first o)
  consider-Fits first o b h =
      considered Fits first o (λ e. behind-Fits o b (reads first o e)) (λ e. h)

  first_fitting-Fits :
      (os : List ℤ) (first : ℕ)
      → ((o : ℤ) → IsAmong o os → pos_part o + neg_part o ≤ 86400)
      → Fits first
      → Fits (first_fitting zone civil first os)
  unfolding first_fitting
  first_fitting-Fits [] first near h = h
  first_fitting-Fits (o ∷ os) first near h =
      first_fitting-Fits os (consider zone civil first o) (λ p i. near p (inr i))
        (consider-Fits first o (near o (inl refl)) h)

  -- A candidate is at hand, and it is no later than t.
  abbrev IsBy : ℕ → ℕ → Type 0
  IsBy t first = (first ≢ zero_time) × (first ≤ t)

  not_zero : (o : ℤ) → pos_part o + neg_part o ≤ 86400 → behind o civil ≢ zero_time
  unfolding behind
  not_zero (pos n) b e = omega arith
  not_zero (negsuc n) b e = omega arith

  consider-IsBy :
      (t first : ℕ) (o : ℤ)
      → pos_part o + neg_part o ≤ 86400
      → IsBy t first
      → IsBy t (consider zone civil first o)
  unfolding better
  consider-IsBy t first o b h =
      considered (IsBy t) first o (λ e. (not_zero o b, ground arith)) (λ e. h)

  consider-IsBy-self :
      (first : ℕ) (o : ℤ)
      → pos_part o + neg_part o ≤ 86400
      → reads_as zone civil (behind o civil) ≡ true
      → IsBy (behind o civil) (consider zone civil first o)
  unfolding better
  consider-IsBy-self first o b r =
      considered (IsBy (behind o civil)) first o (λ e. (not_zero o b, omega arith))
        (λ e. ground arith)

  first_fitting-IsBy :
      (os : List ℤ) (t first : ℕ)
      → ((o : ℤ) → IsAmong o os → pos_part o + neg_part o ≤ 86400)
      → IsBy t first
      → IsBy t (first_fitting zone civil first os)
  unfolding first_fitting
  first_fitting-IsBy [] t first near h = h
  first_fitting-IsBy (o ∷ os) t first near h =
      first_fitting-IsBy os t (consider zone civil first o) (λ p i. near p (inr i))
        (consider-IsBy t first o (near o (inl refl)) h)

  first_fitting-least :
      (os : List ℤ) (first : ℕ) (o : ℤ)
      → ((p : ℤ) → IsAmong p os → pos_part p + neg_part p ≤ 86400)
      → IsAmong o os
      → reads_as zone civil (behind o civil) ≡ true
      → IsBy (behind o civil) (first_fitting zone civil first os)
  unfolding first_fitting
  first_fitting-least [] first o near i r = absurd i
  first_fitting-least (p ∷ os) first o near (inl s) r =
      first_fitting-IsBy os (behind o civil) (consider zone civil first p) (λ q i. near q (inr i))
        (subst (λ q. IsBy (behind o civil) (consider zone civil first q)) s
          (consider-IsBy-self first o (rw s (near p (inl refl))) r))
  first_fitting-least (p ∷ os) first o near (inr i) r =
      first_fitting-least os (consider zone civil first p) o (λ q j. near q (inr j)) i r

  offsets_near : (o : ℤ) → IsAmong o (offsets zone civil) → pos_part o + neg_part o ≤ 86400
  unfolding offsets
  offsets_near o (inl e) = rw e (bounded (civil - 48 * hour))
  offsets_near o (inr (inl e)) = rw e (bounded (civil - 24 * hour))
  offsets_near o (inr (inr (inl e))) = rw e (bounded civil)
  offsets_near o (inr (inr (inr (inl e)))) = rw e (bounded (civil + 24 * hour))
  offsets_near o (inr (inr (inr (inr (inl e))))) = rw e (bounded (civil + 48 * hour))
  offsets_near o (inr (inr (inr (inr (inr j))))) = absurd j

  least : ℕ
  least = first_fitting zone civil zero_time (offsets zone civil)

  least-Fits : Fits least
  unfolding least
  least-Fits = first_fitting-Fits (offsets zone civil) zero_time offsets_near (inl refl)

  local_time-least : (least ≢ zero_time) → local_time zone civil ≡ some least
  unfolding local_time least
  local_time-least n = ground arith

  local_time-some : {t : ℕ} → local_time zone civil ≡ some t → (least ≢ zero_time) × (least ≡ t)
  unfolding local_time least
  local_time-some h = ground arith

  -- What localTime returns reads as the civil time that was asked for.
  pub local_time-reads : {t : ℕ} → local_time zone civil ≡ some t → in_zone zone t ≡ civil
  local_time-reads {t} h =
      let (late_enough, same) = local_time-some h in
      elim least-Fits [
        | inl e ↦ absurd (late_enough e)
        | inr e ↦ subst (λ s. in_zone zone s ≡ civil) same e
      ]

  ahead_late : (o : ℤ) (t : ℕ) → pos_part o + neg_part o ≤ 86400 → ahead o t ≡ civil → day ≤ t
  unfolding ahead
  ahead_late (pos n) t b e = omega arith
  ahead_late (negsuc n) t b e = omega arith

  -- In the day before the civil time, as if it were in UTC, the zone has the offset of the day's beginning
  -- or of its end, and so in the day after.
  pub record IsSteady : Type 0 where
    pub before :
        (t : ℕ)
        → civil ≤ t + day
        → t ≤ civil
        → (zone t ≡ zone (civil - day)) ⊎ (zone t ≡ zone civil)
    pub after :
        (t : ℕ)
        → civil ≤ t
        → t ≤ civil + day
        → (zone t ≡ zone civil) ⊎ (zone t ≡ zone (civil + day))

  reading_near :
      (o : ℤ) (t : ℕ)
      → pos_part o + neg_part o ≤ 86400
      → ahead o t ≡ civil
      → (civil ≤ t + day) × (t ≤ civil + day)
  unfolding ahead
  reading_near (pos n) t b e = omega arith
  reading_near (negsuc n) t b e = omega arith

  -- The loop tries the offset of every instant that reads so.
  steady-IsAmong :
      (t : ℕ) → IsSteady → in_zone zone t ≡ civil → IsAmong (zone t) (offsets zone civil)
  unfolding offsets
  steady-IsAmong t steady e =
      let near = reading_near (zone t) t (bounded t) e in
      elim (Bool-cases (ltb civil t)) [
        | inl l ↦ later (steady.after t (ground (arith, l)) near.1)
        | inr l ↦ earlier (steady.before t near.0 (ltb-false civil t l))
      ]
    where
      later :
          (zone t ≡ zone civil) ⊎ (zone t ≡ zone (civil + day))
          → IsAmong (zone t) (offsets zone civil)
      later (inl same) = inr (inr (inl same))
      later (inr same) = inr (inr (inr (inl same)))

      earlier :
          (zone t ≡ zone (civil - day)) ⊎ (zone t ≡ zone civil)
          → IsAmong (zone t) (offsets zone civil)
      earlier (inl same) = inr (inl same)
      earlier (inr same) = inr (inr (inl same))

  -- In a zone within a day of UTC that has no offset, in the day on either side of the civil time,
  -- but those in force at that day's ends, localTime returns the first of all the instants that read
  -- as the civil time, wherever there is one; the civil time is not before the third of January of year 1.
  pub local_time-IsFirst :
      (t : ℕ)
      → IsSteady
      → in_zone zone t ≡ civil
      → (s : ℕ) × (local_time zone civil ≡ some s) × (in_zone zone s ≡ civil) × (s ≤ t)
  unfolding least reads_as
  local_time-IsFirst t steady e =
      (least, local_time-least by.0, local_time-reads (local_time-least by.0), by.1)
    where
      here : behind (zone t) civil ≡ t
      here = rw (← e) (behind-ahead (zone t) t (bounded t) (ahead_late (zone t) t (bounded t) e))

      fits : reads_as zone civil (behind (zone t) civil) ≡ true
      fits = rw (here, e) (==_refl (civil / second))

      by : (least ≢ zero_time) × (least ≤ t)
      by =
          subst (λ u. IsBy u least) here
            (first_fitting-least (offsets zone civil) zero_time (zone t) offsets_near
              (steady-IsAmong t steady e) fits)
