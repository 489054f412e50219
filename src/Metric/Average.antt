-- ===== src/Metric/Average.antt =====
-- MetricManager80211s.cpp: the moving average of `updateMetrics` in 32-bit arithmetic.
use native.Mathlib.Nat.{
  lt-div-mul-add, div-mul-le_self, div-le_self, le-div_iff_mul-le, div-lt_iff_lt-mul,
}
use fbmeshd.Prelude.{
  ℕ, zero, suc, ◌+◌, ◌-◌, ◌*◌, ◌/◌, ◌^◌, ◌≤◌, ◌<◌, ◌≡◌, inl, inr, refl, ap, subst, sym, false,
  Option, none, some, arith, nat_eq, All, Bool-cases, ltb,
}
use fbmeshd.Prelude.Dict.{find, insert-All, find-All}
use fbmeshd.Metric.{
  Metric, Metrics, Station, Config, average, average_times, first_samples, sample, metric_or_first,
  add_sample, is_filtered, update_station,
}

abbrev pub InRange : ℕ → ℕ → ℕ → ℕ → Type 0
InRange p lo hi ewma = (lo * p ≤ ewma) × (ewma < (hi + 1) * p)

le-mul_pos : (d p : ℕ) → 0 < p → d ≤ d * p
le-mul_pos d p h = grind arith

split_product : (a b p : ℕ) → a ≤ b → b * p ≡ a * p + (b - a) * p
split_product a b p h =
    let e : b ≡ a + (b - a) = omega arith in omega (arith, ap (λ (k : ℕ). k * p) e)

-- The average without wrap-around: the quotient goes, the sample comes.
moved-InRange :
    (p lo hi x e : ℕ)
    → 0 < p
    → lo ≤ x
    → x ≤ hi
    → InRange p lo hi e
    → InRange p lo hi (e + x - e / p)
moved-InRange p lo hi x e h a b r =
    let low : lo ≤ e / p = (le-div_iff_mul-le h).1 r.0 in
    let high : e / p < hi + 1 = (div-lt_iff_lt-mul h).1 r.1 in
    (
      omega (
        arith,
        low,
        div-mul-le_self e p,
        split_product lo (e / p) p low,
        le-mul_pos (e / p - lo) p h,
      ),
      omega (
        arith,
        high,
        lt-div-mul-add {a = e} h,
        split_product (e / p + 1) (hi + 1) p (omega arith),
        le-mul_pos (hi + 1 - (e / p + 1)) p h,
      ),
    )

average_lem :
    (f p x e : ℕ)
    → p ≡ 2 ^ f
    → x < 2 ^ 32
    → e < 2 ^ 32
    → e + x - e / p < 2 ^ 32
    → average f x e ≡ e + x - e / p
unfolding average
average_lem f p x e q a b c = rw (← q) (omega (arith, div-le_self e p))

-- One step keeps the average, and so its rounded value, between bounds that the samples obey.
average-InRange :
    (f p lo hi x e : ℕ)
    → p ≡ 2 ^ f
    → 0 < p
    → (hi + 1) * p ≤ 2 ^ 32
    → lo ≤ x
    → x ≤ hi
    → InRange p lo hi e
    → InRange p lo hi (average f x e)
average-InRange f p lo hi x e q h fits a b r =
    let m = moved-InRange p lo hi x e h a b r in
    let small : x < 2 ^ 32 = omega (arith, le-mul_pos (hi + 1) p h) in
    subst (InRange p lo hi) (sym (average_lem f p x e q small (omega arith) (omega arith))) m

average_times-InRange :
    (n f p lo hi x e : ℕ)
    → p ≡ 2 ^ f
    → 0 < p
    → (hi + 1) * p ≤ 2 ^ 32
    → lo ≤ x
    → x ≤ hi
    → InRange p lo hi e
    → InRange p lo hi (average_times n f x e)
unfolding average_times
average_times-InRange zero f p lo hi x e q h fits a b r = r
average_times-InRange (suc n) f p lo hi x e q h fits a b r =
    average_times-InRange n f p lo hi x (average f x e) q h fits a b
      (average-InRange f p lo hi x e q h fits a b r)

first-InRange :
    (c : Config) (lo hi x : ℕ)
    → 0 < 2 ^ c.ewma_factor
    → (hi + 1) * 2 ^ c.ewma_factor ≤ 2 ^ 32
    → lo ≤ x
    → x ≤ hi
    → InRange (2 ^ c.ewma_factor) lo hi (metric_or_first c x none).ewma_metric
first-InRange c lo hi x h fits a b =
    let p = 2 ^ c.ewma_factor in
    let small : x * p < (hi + 1) * p =
      omega (arith, split_product x hi p b, le-mul_pos (hi - x) p h) in
    omega (arith, small, split_product lo x p a)

add_sample-InRange :
    (c : Config) (lo hi x : ℕ) (m : Metric)
    → 0 < 2 ^ c.ewma_factor
    → (hi + 1) * 2 ^ c.ewma_factor ≤ 2 ^ 32
    → lo ≤ x
    → x ≤ hi
    → InRange (2 ^ c.ewma_factor) lo hi m.ewma_metric
    → InRange (2 ^ c.ewma_factor) lo hi (add_sample c x m).ewma_metric
unfolding add_sample
add_sample-InRange c lo hi x m h fits a b r =
    let f = c.ewma_factor in
    let e = average-InRange f (2 ^ f) lo hi x m.ewma_metric refl h fits a b r in
    elim (Bool-cases (ltb m.count first_samples)) [
      | inl early ↦ rw early (
          average_times-InRange (first_samples - m.count) f (2 ^ f) lo hi x
            (average f x m.ewma_metric) refl h fits a b e)
      | inr late ↦ rw late e
    ]

abbrev pub IsBounded : Config → ℕ → ℕ → Metrics → Type 0
IsBounded c lo hi = All λ e. InRange (2 ^ c.ewma_factor) lo hi e.1.ewma_metric

pub update_station-IsBounded :
    (c : Config) (lo hi : ℕ) (sta : Station) (ms : Metrics)
    → 0 < 2 ^ c.ewma_factor
    → (hi + 1) * 2 ^ c.ewma_factor ≤ 2 ^ 32
    → (is_filtered c sta ≡ false → (lo ≤ sample c sta) × (sample c sta ≤ hi))
    → IsBounded c lo hi ms
    → IsBounded c lo hi (update_station c sta ms)
unfolding update_station
update_station-IsBounded c lo hi sta ms h fits sampled b = elim (Bool-cases (is_filtered c sta)) [
  | inl out ↦ rw out b
  | inr in_use ↦
      let (x, y) = sampled in_use in
      let mac = sta.mac_address in
      let entry = metric_or_first c (sample c sta) (find mac ms) in
      rw in_use (
        insert-All (λ e. InRange (2 ^ c.ewma_factor) lo hi e.1.ewma_metric) mac _ ms
          (add_sample-InRange c lo hi (sample c sta) entry h fits x y
            (entry-InRange (find mac ms) refl x y))
          b)
]
  where
    entry-InRange :
        (o : Option Metric)
        → find sta.mac_address ms ≡ o
        → lo ≤ sample c sta
        → sample c sta ≤ hi
        → InRange (2 ^ c.ewma_factor) lo hi (metric_or_first c (sample c sta) o).ewma_metric
    entry-InRange none e x y = first-InRange c lo hi (sample c sta) h fits x y
    entry-InRange (some m) e x y =
        find-All (λ e. InRange (2 ^ c.ewma_factor) lo hi e.1.ewma_metric) sta.mac_address m ms b e
