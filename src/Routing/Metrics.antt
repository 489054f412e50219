-- ===== src/Routing/Metrics.antt =====
-- routing/Routing.cpp: the sum of path metric and link metric.
use fbmeshd.Prelude.{ℕ, ◌+◌, ◌^◌, ◌<◌, ◌≡◌, min, arith}
use fbmeshd.Routing.{add_metric, max_metric}

-- The 32-bit sum of two metrics saturates: it is the true sum, cut off at the greatest metric.
pub add_metric-saturates :
    (orig last : ℕ)
    → orig < 2 ^ 32
    → last < 2 ^ 32
    → add_metric orig last ≡ min (orig + last) max_metric
unfolding add_metric
add_metric-saturates orig last a b = ground arith

pub add_metric-lt : (orig last : ℕ) → add_metric orig last < 2 ^ 32
unfolding add_metric
add_metric-lt orig last = ground arith
