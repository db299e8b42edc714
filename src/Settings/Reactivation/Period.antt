-- ===== src/Settings/Reactivation/Period.antt =====
-- The order of the dates is that of the minutes that they count, and the period is between its ends.
use game_login.Base.{
  ℕ, ◌+◌, ◌*◌, ◌^◌, ◌<◌, ◌≡◌, sym, ◌∙◌, true, not, ◌&&◌, ◌||◌, some, ltb, leb, ◌==◌, if◌then◌else◌,
  arith,
}
use game_login.Settings.Reactivation.{
  SystemTime, Order, order, before, same, after, compare_date_time, is_valid_date_time, load_period,
  is_reactivation_active,
}

-- A date as one number; its fields are 16 bit words.
pub stamp : SystemTime → ℕ
stamp t = (((t.year * 2 ^ 16 + t.month) * 2 ^ 16 + t.day) * 2 ^ 16 + t.hour) * 2 ^ 16 + t.minute

abbrev pub IsSystemTime : SystemTime → Type 0
IsSystemTime t =
    (t.year < 2 ^ 16)
    × (t.month < 2 ^ 16)
    × (t.day < 2 ^ 16)
    × (t.hour < 2 ^ 16)
    × (t.minute < 2 ^ 16)

order_pair :
    (a b s t : ℕ) (rest : Order)
    → s < 2 ^ 16
    → t < 2 ^ 16
    → order (a * 2 ^ 16 + s) (b * 2 ^ 16 + t) rest ≡ order a b (order s t rest)
order_pair a b s t rest h k = ground arith

compare_date_time-order :
    (s t : SystemTime)
    → IsSystemTime s
    → IsSystemTime t
    → order (stamp s) (stamp t) same ≡ compare_date_time s t
unfolding compare_date_time stamp
compare_date_time-order s t v w =
    let h = λ (r : Order). order_pair s.year t.year s.month t.month r v.1 w.1 in
    let day_s = s.year * 2 ^ 16 + s.month in
    let day_t = t.year * 2 ^ 16 + t.month in
    let hour_s = day_s * 2 ^ 16 + s.day in
    let hour_t = day_t * 2 ^ 16 + t.day in
    let minutes = order s.minute t.minute same in
    let hours = order s.hour t.hour minutes in
    order_pair (hour_s * 2 ^ 16 + s.hour) (hour_t * 2 ^ 16 + t.hour) s.minute t.minute same v.4 w.4
    ∙ order_pair hour_s hour_t s.hour t.hour minutes v.3 w.3
    ∙ order_pair day_s day_t s.day t.day hours v.2 w.2
    ∙ h (order s.day t.day hours)

-- On dates with fields of 16 bits, `CompareDateTime` gives the order of their stamps, and finds
-- only equal stamps equal.
pub compare_date_time-stamp :
    (s t : SystemTime)
    → IsSystemTime s
    → IsSystemTime t
    → compare_date_time s t
      ≡ (if stamp s == stamp t then same else if ltb (stamp s) (stamp t) then before else after)
compare_date_time-stamp s t v w = sym (compare_date_time-order s t v w)

-- What `Load` and `IsReactivationActive` come to for two dates of the settings in either order,
-- both valid and with fields of 16 bits: reactivation is on if the setting `Reactivation` is not 0,
-- and else at the times from the earlier of the dates to the later one, both included.
pub is_reactivation_active-load_period :
    (reactivation : ℕ) (a b now : SystemTime)
    → IsSystemTime a
    → IsSystemTime b
    → IsSystemTime now
    → is_valid_date_time a ≡ true
    → is_valid_date_time b ≡ true
    → is_reactivation_active reactivation (load_period (some a) (some b)) now ≡ (
        not (reactivation == 0)
        || ((leb (stamp a) (stamp now) && leb (stamp now) (stamp b))
            || (leb (stamp b) (stamp now) && leb (stamp now) (stamp a))))
unfolding is_reactivation_active load_period
is_reactivation_active-load_period reactivation a b now va vb vn fa fb = ground (
  arith,
  compare_date_time-stamp a b va vb,
  compare_date_time-stamp a now va vn,
  compare_date_time-stamp now a vn va,
  compare_date_time-stamp b now vb vn,
  compare_date_time-stamp now b vn vb,
)
