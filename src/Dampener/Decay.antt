-- ===== src/Dampener/Decay.antt =====
-- RouteDampener.cpp: half-lives. The penalty decays, and a dampened route is released in time.
use native.Mathlib.Nat.{pow-suc}
use fbmeshd.Prelude.{
  ℕ, zero, suc, ◌+◌, ◌*◌, ◌/◌, ◌^◌, ◌≤◌, ◌<◌, ◌≡◌, ap, true, false, none, some, arith,
}
use fbmeshd.Dampener.{Params, Dampener, Run, prepend, done, ◌>>=◌, half_life_callback}

-- The callback of the half-life timer, n times in a row.
pub half_lives : Params → ℕ → Dampener → Run
half_lives p zero s = done s
half_lives p (suc n) s = half_life_callback p s >>= λ t. half_lives p n t

-- The run does not abort, and ends in a state with the property.
abbrev pub Ends : (Dampener → Type 0) → Run → Type 0
Ends P none = ⊥
Ends P (some (t, es)) = P t

pub Ends-bind :
    (P Q : Dampener → Type 0) (r : Run) (f : Dampener → Run)
    → Ends P r
    → ((t : Dampener) → P t → Ends Q (f t))
    → Ends Q (r >>= f)
Ends-bind P Q none f h k = h
Ends-bind P Q (some (t, es)) f h k = lift (f t) (k t h)
  where
    lift : (r : Run) → Ends Q r → Ends Q (prepend es r)
    lift none q = q
    lift (some (u, fs)) q = q

-- What one callback does to a state.
pub record Decayed (p : Params) (s t : Dampener) : Type 0 where
  pub halved : t.history ≤ s.history / 2
  pub forgotten : s.history / 2 ≤ p.reuse_limit / 2 → t.history ≡ 0
  pub kept : p.reuse_limit / 2 < s.history / 2 → t.history ≡ s.history / 2
  pub released : s.history / 2 ≤ p.reuse_limit → t.dampened ≡ false
  pub held : p.reuse_limit < s.history / 2 → t.dampened ≡ s.dampened
  pub rearmed : t.half_life_timer ≡ true

-- One callback of the half-life timer halves the penalty, clears it when half the reuse limit is
-- reached, releases a dampened route exactly when the reuse limit is reached, and leaves the timer
-- scheduled in every case, also when it has just cleared the penalty and stopped the timer.
pub half_life_callback-Decayed :
    (p : Params) (s : Dampener) → Ends (Decayed p s) (half_life_callback p s)
unfolding half_life_callback
half_life_callback-Decayed p s = ground arith

half-lt : (a r x y : ℕ) → y ≡ x * 2 → a < (r + 1) * y → a / 2 < (r + 1) * x
half-lt a r x y e h = omega (arith, ap (λ (k : ℕ). (r + 1) * k) e)

-- A route whose penalty is below (reuse limit + 1) * 2 ^ (n + 1) is not dampened after n + 1
-- half-lives without a flap.
pub half_lives_release :
    (p : Params) (n : ℕ) (s : Dampener)
    → s.history < (p.reuse_limit + 1) * 2 ^ suc n
    → Ends (λ t. t.dampened ≡ false) (half_lives p (suc n) s)
unfolding half_lives
half_lives_release p zero s h =
    Ends-bind (Decayed p s) _ (half_life_callback p s) (λ t. done t)
      (half_life_callback-Decayed p s) λ t d. d.released (omega arith)
half_lives_release p (suc n) s h =
    Ends-bind (Decayed p s) _ (half_life_callback p s) (half_lives p (suc n))
      (half_life_callback-Decayed p s)
      λ t d. half_lives_release p n t (
        omega (
          arith,
          d.halved,
          half-lt s.history p.reuse_limit (2 ^ suc n) (2 ^ suc (suc n)) (pow-suc 2 (suc n)) h,
        ))
