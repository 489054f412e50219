-- ===== src/Dampener/Invariant.antt =====
-- RouteDampener.cpp: what holds of a dampener between two events.
use fbmeshd.Prelude.{
  ℕ, ◌+◌, ◌<◌, ◌≡◌, refl, ap, subst, Bool, true, false, none, some, List, [], ◌∷◌, ◌++◌, arith,
}
use fbmeshd.Dampener.{
  Params, Dampener, Effect, Run, initial, flap, half_life_callback, max_suppress_limit_callback,
  u32_mod,
}

-- One event: a flap of the route, or a timer that is scheduled and fires.
pub data Event (s : Dampener) : Type 0 where
  flaps : Event s
  half_life_fires : s.half_life_timer ≡ true → Event s
  max_suppress_limit_fires : s.max_suppress_limit_timer ≡ true → Event s

unfoldable pub handle : Params → (s : Dampener) → Event s → Run
handle p s flaps = flap p s
handle p s (half_life_fires _) = half_life_callback p s
handle p s (max_suppress_limit_fires _) = max_suppress_limit_callback s

abbrev pub switched : Effect → ℕ
switched Effect.dampen = 1
switched _ = 0

abbrev pub released : Effect → ℕ
released Effect.undampen = 1
released _ = 0

abbrev pub total : (Effect → ℕ) → List Effect → ℕ
total f [] = 0
total f (e ∷ es) = f e + total f es

abbrev pub as_number : Bool → ℕ
as_number true = 1
as_number false = 0

pub record Inv (s : Dampener) : Type 0 where
  pub max_armed : s.max_suppress_limit_timer ≡ s.dampened
  pub half_armed : s.dampened ≡ true → s.half_life_timer ≡ true
  pub in_range : s.history < u32_mod

-- The event returns, keeps the invariant, and the calls of `dampen` and `undampen` that it makes
-- account for the change of `dampened`.
abbrev pub Handled : Dampener → Run → Type 0
Handled s none = ⊥
Handled s (some (t, es)) =
    Inv t × (as_number s.dampened + total switched es ≡ as_number t.dampened + total released es)

pub handle-Handled : (p : Params) (s : Dampener) (e : Event s) → Inv s → Handled s (handle p s e)
unfolding handle flap half_life_callback max_suppress_limit_callback
handle-Handled p s flaps v = ground arith
handle-Handled p s (half_life_fires h) v = ground arith
handle-Handled p s (max_suppress_limit_fires h) v = ground arith

-- The states that a new dampener can reach, with all the effects made on the way.
pub data Reach (p : Params) : Dampener → List Effect → Type 0 where
  here : Reach p initial []
  next :
      {s t : Dampener} {es fs gs : List Effect}
      → Reach p s es
      → (e : Event s) → handle p s e ≡ some (t, fs)
      → gs ≡ es ++ fs
      → Reach p t gs

total-append : (f : Effect → ℕ) (es fs : List Effect) → total f (es ++ fs) ≡ total f es + total f fs
total-append f [] fs = omega arith
total-append f (e ∷ es) fs = omega (arith, total-append f es fs)

pub initial-Inv : Inv initial
initial-Inv = record { max_armed = refl; half_armed = λ h. cc; in_range = omega arith }

pub Handled-some :
    (s t : Dampener) (r : Run) (es : List Effect)
    → r ≡ some (t, es)
    → Handled s r
    → Inv t × (as_number s.dampened + total switched es ≡ as_number t.dampened + total released es)
Handled-some s t r es e h = subst (Handled s) e h

-- In every reachable state the maximum-suppression timer is scheduled exactly while the route is
-- dampened, and then the half-life timer is scheduled too; the client has been told to dampen once
-- more than to undampen while the route is dampened, and equally often otherwise; and no event that
-- can come next aborts the process.
pub Reach-Handled :
    (p : Params) {s : Dampener} {es : List Effect}
    → Reach p s es
    → Inv s
      × (total switched es ≡ as_number s.dampened + total released es)
      × ((e : Event s) → Handled s (handle p s e))
Reach-Handled p here = (initial-Inv, refl, λ e. handle-Handled p initial e initial-Inv)
Reach-Handled p (next {s = s} {t = t} {es = es} {fs = fs} {gs = gs} r e h g) =
    let ih = Reach-Handled p r in
    let (v, b) = Handled-some s t (handle p s e) fs h (ih.2 e) in
    (
      v,
      omega (
        arith,
        ih.1,
        b,
        ap (total switched) g,
        ap (total released) g,
        total-append switched es fs,
        total-append released es fs,
      ),
      λ e'. handle-Handled p t e' v,
    )
