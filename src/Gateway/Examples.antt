-- ===== src/Gateway/Examples.antt =====
-- GatewayConnectivityMonitor.cpp: the theorems at concrete monitors.
use Prim.Native.String.{String}
use fbmeshd.Prelude.{
  ℕ, ◌≡◌, ◌↔◌, refl, true, false, Option, none, some, [], ◌∷◌, arith, ◌==◌, if◌then◌else◌,
}
use fbmeshd.Gateway.{Config, Monitor, on_probed, probe_wan_connectivity_robustly}
use fbmeshd.Gateway.Probe.{Reached, probe_robustly_iff}
use fbmeshd.Gateway.Advertise.{Returns, status_after, advertised_while_dampened}

abbrev config : Config
config = record {
  dampening = record {
    penalty = 1000;
    suppress_limit = 2000;
    reuse_limit = 750;
    half_life = 60;
    max_suppress_limit = 180;
  };
  robustness = 2;
  set_root_mode_if_gate = 4;
  has_routing = true;
}

-- After one flap, with the WAN lost again.
abbrev waiting : Monitor
waiting = record {
  dampener = record {
    history = 1000;
    dampened = false;
    half_life_timer = false;
    max_suppress_limit_timer = false;
  };
  is_gateway_active = false;
}

abbrev held : Monitor
held = record {
  dampener = record {
    history = 1400;
    dampened = true;
    half_life_timer = true;
    max_suppress_limit_timer = true;
  };
  is_gateway_active = true;
}

-- The second round reaches the second address.
abbrev connect : ℕ → ℕ → Option String
connect round a = if round == 1 then (if a == 8 then none else some "timeout") else some "socket"

probe_robustly_iff_example :
    ((probe_wan_connectivity_robustly connect config (7 ∷ 8 ∷ [])).0 ≡ true)
    ↔ Reached connect 0 2 (7 ∷ 8 ∷ [])
probe_robustly_iff_example = probe_robustly_iff connect config (7 ∷ 8 ∷ [])

probe_succeeds : (probe_wan_connectivity_robustly connect config (7 ∷ 8 ∷ [])).0 ≡ true
unfolding probe_wan_connectivity_robustly
probe_succeeds = refl

advertised_while_dampened_example :
    Returns
      (λ n acts.
        (n.dampener.dampened ≡ true)
        × (status_after false acts ≡ true)
        × (on_probed config true n ≡ some (n, [])))
      (on_probed config true waiting)
advertised_while_dampened_example =
    advertised_while_dampened config waiting false refl refl refl (omega arith)
