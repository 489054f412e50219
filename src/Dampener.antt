-- ===== src/Dampener.antt =====
-- gateway-connectivity-monitor/RouteDampener.cpp: the penalty that a flapping default route
-- collects. The virtual calls `dampen`, `undampen`, `setStat` and the two user hooks are emitted as
-- effects, in the order in which the code makes them; the two one-shot timers are the Booleans
-- "is scheduled". `none` is an abort of the process by `CHECK`.
pub mod Invariant
pub mod Decay
pub mod Suppression
mod Examples
use fbmeshd.Prelude.{
  ℕ, zero, suc, ◌+◌, ◌-◌, ◌*◌, ◌/◌, ◌%◌, ◌^◌, ◌≤◌, ◌<◌, ◌≡◌, refl, Bool, true, false, not, ◌&&◌,
  ◌||◌, Option, none, some, List, [], ◌∷◌, ◌++◌, ltb, leb, ◌==◌, if◌then◌else◌,
}

abbrev pub u32_mod : ℕ
u32_mod = 2 ^ 32

pub record Params : Type 0 where
  pub penalty : ℕ
  pub suppress_limit : ℕ
  pub reuse_limit : ℕ
  pub half_life : ℕ
  pub max_suppress_limit : ℕ

pub record Dampener : Type 0 where
  pub history : ℕ
  pub dampened : Bool
  pub half_life_timer : Bool
  pub max_suppress_limit_timer : Bool

-- The statistics `route_dampener.default_route_history` and `route_dampener.default_route_dampened`.
pub data Stat : Type 0 where
  default_route_history default_route_dampened : Stat

pub data Effect : Type 0 where
  set_stat : Stat → ℕ → Effect
  dampen : Effect
  undampen : Effect
  user_half_life_timer_expired : Effect
  user_suppress_limit_timer_expired : Effect

abbrev pub Run : Type 0
Run = Option (Dampener × List Effect)

abbrev pub prepend : List Effect → Run → Run
prepend es none = none
prepend es (some (s, fs)) = some (s, es ++ fs)

infixl 5 ◌>>=◌
abbrev pub ◌>>=◌ : Run → (Dampener → Run) → Run
none >>= f = none
some (s, es) >>= f = prepend es (f s)

abbrev pub emit : Effect → Dampener → Run
emit e s = some (s, e ∷ [])

abbrev pub done : Dampener → Run
done s = some (s, [])

-- `penalty_ <= reuseLimit_ * (1 << (maxSuppressLimit_ / halfLife_))` in 32 bits. `none` is undefined
-- behaviour: a division by zero or a shift by the width of `int`.
pub is_valid : Params → Option Bool
is_valid p =
    let shift = p.max_suppress_limit / p.half_life in
    if p.half_life == 0 || leb 32 shift
    then none
    else some (leb p.penalty (p.reuse_limit * 2 ^ shift % u32_mod))

pub data Construction : Type 0 where
  constructed : Dampener → Construction
  range_error : Construction
  undefined : Construction

abbrev pub initial : Dampener
initial = record {
  history = 0;
  dampened = false;
  half_life_timer = false;
  max_suppress_limit_timer = false;
}

pub construct : Params → Construction
unfolding is_valid
construct p = elim (is_valid p) [
  | none ↦ undefined
  | some v ↦ if v then constructed initial else range_error
]

pub set_history : ℕ → Dampener → Run
set_history n s = some (record s { history = n }, set_stat default_route_history n ∷ [])

-- `scheduleTimeout` on a timer that is scheduled replaces it.
pub start_half_life_timer : Dampener → Dampener
start_half_life_timer s = record s { half_life_timer = true }

pub start_max_suppress_limit_timer : Dampener → Dampener
start_max_suppress_limit_timer s = record s { max_suppress_limit_timer = true }

pub stop_max_suppress_limit_timer : Dampener → Dampener
stop_max_suppress_limit_timer s =
    if s.max_suppress_limit_timer then record s { max_suppress_limit_timer = false } else s

pub stop_half_life_timer : Dampener → Dampener
stop_half_life_timer s = if s.half_life_timer then record s { half_life_timer = false } else s

suppress : Dampener → Run
unfolding start_half_life_timer start_max_suppress_limit_timer
suppress s = do
  s ← emit (set_stat default_route_dampened 1) (record s { dampened = true })
  emit dampen (start_max_suppress_limit_timer (start_half_life_timer s))

unfoldable pub flap : Params → Dampener → Run
unfolding set_history suppress
flap p s = do
  s ← set_history ((s.history + p.penalty) % u32_mod) s
  if not s.dampened && leb p.suppress_limit s.history then suppress s else done s

pub undampen_impl : Dampener → Run
unfolding stop_max_suppress_limit_timer
undampen_impl s = if not s.dampened then none else do
  s ← emit undampen (stop_max_suppress_limit_timer (record s { dampened = false }))
  emit (set_stat default_route_dampened 0) s

reset_history : Params → Dampener → Run
unfolding set_history stop_half_life_timer
reset_history p s =
    if ltb (p.reuse_limit / 2) s.history
    then done s
    else do s ← set_history 0 s; done (stop_half_life_timer s)

pub half_life_timer_expired : Params → Dampener → Run
unfolding set_history reset_history undampen_impl
half_life_timer_expired p s = do
  s ← set_history (s.history / 2) s
  s ← reset_history p s
  s ← if s.dampened && leb s.history p.reuse_limit then undampen_impl s else done s
  emit user_half_life_timer_expired s

-- The callback that the constructor installs: the one-shot timer has fired, the handler runs, and
-- the timer is scheduled again.
unfoldable pub half_life_callback : Params → Dampener → Run
unfolding half_life_timer_expired start_half_life_timer
half_life_callback p s = do
  s ← half_life_timer_expired p (record s { half_life_timer = false })
  done (start_half_life_timer s)

clear : Dampener → Run
unfolding set_history stop_half_life_timer undampen_impl
clear s = do s ← set_history 0 s; undampen_impl (stop_half_life_timer s)

pub max_suppress_limit_timer_expired : Dampener → Run
unfolding clear
max_suppress_limit_timer_expired s = do
  s ← if s.dampened then clear s else done s
  emit user_suppress_limit_timer_expired s

unfoldable pub max_suppress_limit_callback : Dampener → Run
unfolding max_suppress_limit_timer_expired
max_suppress_limit_callback s =
    max_suppress_limit_timer_expired (record s { max_suppress_limit_timer = false })
