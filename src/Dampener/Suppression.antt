-- ===== src/Dampener/Suppression.antt =====
-- RouteDampener.cpp: how many flaps it takes until the route is dampened.
use native.Mathlib.Nat.{zero-add}
use fbmeshd.Prelude.{ℕ, zero, suc, ◌+◌, ◌*◌, ◌<◌, ◌≡◌, refl, subst, arith, leb}
use fbmeshd.Dampener.{Params, Dampener, Run, u32_mod, initial, done, ◌>>=◌, flap}
use fbmeshd.Dampener.Decay.{Ends, Ends-bind}

-- Flaps with no timer between them.
pub flaps : Params → ℕ → Dampener → Run
flaps p zero s = done s
flaps p (suc n) s = flap p s >>= λ t. flaps p n t

-- The route is dampened exactly when the penalty has reached the limit.
abbrev InStep : Params → ℕ → Dampener → Type 0
InStep p h s = (s.history ≡ h) × (s.dampened ≡ leb p.suppress_limit h)

flap-InStep :
    (p : Params) (h : ℕ) (s : Dampener)
    → h + p.penalty < u32_mod
    → InStep p h s
    → Ends (InStep p (h + p.penalty)) (flap p s)
unfolding flap
flap-InStep p h s fits v = ground arith

one_more : (h n d : ℕ) → h + d + n * d ≡ h + suc n * d
one_more h n d = omega arith

flaps-InStep :
    (p : Params) (n h : ℕ) (s : Dampener)
    → h + n * p.penalty < u32_mod
    → InStep p h s
    → Ends (InStep p (h + n * p.penalty)) (flaps p n s)
unfolding flaps
flaps-InStep p zero h s fits v = ground arith
flaps-InStep p (suc n) h s fits v =
    Ends-bind (InStep p (h + p.penalty)) _ (flap p s) (flaps p n)
      (flap-InStep p h s (grind arith) v)
      λ t w.
        subst (λ k. Ends (InStep p k) (flaps p n t)) (one_more h n p.penalty)
          (flaps-InStep p n (h + p.penalty) t (omega (arith, one_more h n p.penalty)) w)

-- With no half-life between them, n flaps of a new route bring the penalty to n times that of one
-- flap, and the route is dampened exactly when this has reached a positive suppress limit, as long
-- as the penalty fits the 32-bit counter.
pub flaps_dampen :
    (p : Params) (n : ℕ)
    → 0 < p.suppress_limit
    → n * p.penalty < u32_mod
    → Ends
        (λ t. (t.history ≡ n * p.penalty) × (t.dampened ≡ leb p.suppress_limit (n * p.penalty)))
        (flaps p n initial)
flaps_dampen p n positive fits =
    subst (λ k. Ends (InStep p k) (flaps p n initial)) (zero-add (n * p.penalty))
      (flaps-InStep p n 0 initial (omega arith) (refl, ground arith))
