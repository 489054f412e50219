-- ===== src/Metric/Airtime.antt =====
-- MetricManager80211s.cpp: `bitrateToAirtime` and `rssiToAirtime`.
use native.Mathlib.Nat.{le-div_iff_mul-le, div-mul-le_self}
use fbmeshd.Prelude.{ℕ, zero, suc, ◌+◌, ◌-◌, ◌*◌, ◌/◌, ◌≤◌, ◌<◌, ◌≡◌, ap, ◌∙◌, false, arith}
use fbmeshd.Prelude.Int.{ℤ, ◌≤ℤ◌}
use fbmeshd.Metric.{bitrate_to_airtime, rssi_to_airtime, rssi_to_rate, u32, is_zero}

abbrev of_units : ℕ → ℕ
of_units units = u32 (u32 (256 + 20971520 / units) * 256) / 65536

airtime_lem : (rate : ℕ) → 0 < rate → bitrate_to_airtime rate ≡ of_units (1 + (rate - 1) / 100)
unfolding bitrate_to_airtime
airtime_lem rate h = ground arith

few_units : (units : ℕ) → 1 < units → units ≤ 4 → 16385 < of_units units
few_units zero a b = absurd (omega arith)
few_units (suc zero) a b = absurd (omega arith)
few_units (suc (suc zero)) a b = omega arith
few_units (suc (suc (suc zero))) a b = omega arith
few_units (suc (suc (suc (suc zero)))) a b = omega arith
few_units (suc (suc (suc (suc (suc n))))) a b = absurd (omega arith)

-- The product of the transmission time wraps for the lowest bitrates: every bitrate from 1 to 100
-- gets the airtime 16385, which is less than the airtime of each bitrate from 101 to 400, so a
-- slower link is preferred.
pub slowest_links_preferred :
    (slow fast : ℕ)
    → 0 < slow
    → slow ≤ 100
    → 100 < fast
    → fast ≤ 400
    → (bitrate_to_airtime slow ≡ 16385) × (bitrate_to_airtime slow < bitrate_to_airtime fast)
slowest_links_preferred slow fast a b c d =
    let s = airtime_lem slow a in
    let one : 1 + (slow - 1) / 100 ≡ 1 = omega arith in
    let e : bitrate_to_airtime slow ≡ 16385 = s ∙ ap of_units one in
    let f = few_units (1 + (fast - 1) / 100) (omega arith) (omega arith) in
    (e, omega (arith, e, f, airtime_lem fast (omega arith)))

div_antitone : (n a b : ℕ) → 0 < a → a ≤ b → n / b ≤ n / a
div_antitone n a b p h = (le-div_iff_mul-le p).1 (grind (arith, div-mul-le_self n b))

-- From a bitrate of 101 on, a faster link never has the greater airtime.
pub bitrate_to_airtime-antitone :
    (slow fast : ℕ) → 100 < slow → slow ≤ fast → bitrate_to_airtime fast ≤ bitrate_to_airtime slow
bitrate_to_airtime-antitone slow fast a h = omega (
  arith,
  airtime_lem slow (omega arith),
  airtime_lem fast (omega arith),
  div_antitone 20971520 2 (1 + (slow - 1) / 100) (omega arith) (omega arith),
  div_antitone 20971520 (1 + (slow - 1) / 100) (1 + (fast - 1) / 100) (omega arith) (omega arith),
)

rate_mono : (weak strong : ℤ) → weak ≤ℤ strong → rssi_to_rate weak ≤ rssi_to_rate strong
rate_mono weak strong h = ground arith

rate_bounds : (rssi : ℤ) → (65 ≤ rssi_to_rate rssi) × (rssi_to_rate rssi ≤ 867)
rate_bounds rssi = ground arith

strength_lem : (rssi : ℤ) → is_zero rssi ≡ false → rssi_to_airtime rssi ≡ 8192 / rssi_to_rate rssi
unfolding rssi_to_airtime
strength_lem rssi h = rw h

-- A signal strength other than 0 gives an airtime from 9 to 126, and a stronger signal never the
-- greater one; so the test for broken values is met for the signal strength 0 only.
pub rssi_to_airtime_lem :
    (weak strong : ℤ)
    → is_zero weak ≡ false
    → is_zero strong ≡ false
    → weak ≤ℤ strong
    → (9 ≤ rssi_to_airtime strong)
      × (rssi_to_airtime strong ≤ rssi_to_airtime weak)
      × (rssi_to_airtime weak ≤ 126)
rssi_to_airtime_lem weak strong a b h =
    let w = rate_bounds weak in
    let s = rate_bounds strong in
    rw (strength_lem weak a, strength_lem strong b)
      (
        div_antitone 8192 (rssi_to_rate strong) 867 (omega (arith, s)) s.1,
        div_antitone 8192 (rssi_to_rate weak) (rssi_to_rate strong) (omega (arith, w))
            (rate_mono weak strong h),
        div_antitone 8192 65 (rssi_to_rate weak) (omega arith) w.0,
      )

units_bounds : (units : ℕ) → 0 < units → (1 ≤ of_units units) × (of_units units ≤ 40961)
units_bounds zero h = absurd (omega arith)
units_bounds (suc zero) h = omega arith
units_bounds (suc (suc n)) h =
    omega (arith, div_antitone 20971520 2 (suc (suc n)) (omega arith) (omega arith))

-- Every bitrate but 0 gives an airtime from 1 to 40961.
pub bitrate_to_airtime_bounds :
    (rate : ℕ) → 0 < rate → (1 ≤ bitrate_to_airtime rate) × (bitrate_to_airtime rate ≤ 40961)
bitrate_to_airtime_bounds rate h =
    rw (airtime_lem rate h) (units_bounds (1 + (rate - 1) / 100) (omega arith))
