-- ===== src/Dampener/Examples.antt =====
-- RouteDampener.cpp: runs with the values of RouteDampenerTest.cpp.
use fbmeshd.Prelude.{◌+◌, ◌≡◌, refl, true, false, some, List, [], ◌∷◌, ◌++◌, arith}
use fbmeshd.Dampener.{
  Params, Dampener, Effect, set_stat, default_route_history, default_route_dampened, initial,
  is_valid, construct, range_error, flap,
}
use fbmeshd.Dampener.Invariant.{
  Inv, Event, flaps, handle, Handled, Reach, here, next, Reach-Handled, as_number, total, switched,
  released,
}
use fbmeshd.Dampener.Decay.{Ends, half_lives, half_lives_release}

abbrev test_params : Params
test_params = record {
  penalty = 1000;
  suppress_limit = 2000;
  reuse_limit = 750;
  half_life = 1;
  max_suppress_limit = 3;
}

abbrev once : Dampener
once = record {
  history = 1000;
  dampened = false;
  half_life_timer = false;
  max_suppress_limit_timer = false;
}

abbrev twice : Dampener
twice = record {
  history = 2000;
  dampened = true;
  half_life_timer = true;
  max_suppress_limit_timer = true;
}

abbrev first_effects : List Effect
first_effects = set_stat default_route_history 1000 ∷ []

abbrev second_effects : List Effect
second_effects =
    set_stat default_route_history 2000 ∷ set_stat default_route_dampened 1 ∷ Effect.dampen ∷ []

-- FlapAndReachedSuppressionLimit.
first_flap : flap test_params initial ≡ some (once, first_effects)
unfolding flap
first_flap = refl

second_flap : flap test_params once ≡ some (twice, second_effects)
unfolding flap
second_flap = refl

-- InvalidParameters: the constructor throws.
invalid_parameters : construct (record test_params { penalty = 10000 }) ≡ range_error
unfolding construct
invalid_parameters = refl

test_params_valid : is_valid test_params ≡ some true
unfolding is_valid
test_params_valid = refl

Reach-twice : Reach test_params twice (first_effects ++ second_effects)
unfolding handle
Reach-twice = next (next here flaps first_flap refl) flaps second_flap refl

Reach-Handled_example :
    Inv twice
    × (total switched (first_effects ++ second_effects)
        ≡ as_number twice.dampened + total released (first_effects ++ second_effects))
    × ((e : Event twice) → Handled twice (handle test_params twice e))
Reach-Handled_example = Reach-Handled test_params Reach-twice

half_lives_release_example : Ends (λ t. t.dampened ≡ false) (half_lives test_params 2 twice)
half_lives_release_example = half_lives_release test_params 1 twice (omega arith)
