-- ===== src/Gateway/Advertise.antt =====
-- GatewayConnectivityMonitor.cpp: when the node advertises itself as a gateway.
use fbmeshd.Prelude.{
  ◌+◌, ◌%◌, ◌≤◌, ◌≡◌, Bool, true, false, not, ◌&&◌, if◌then◌else◌, Option, none, some, List, [],
  ◌∷◌, arith,
}
use fbmeshd.Dampener.{flap, half_life_callback, u32_mod}
use fbmeshd.Gateway.{Action, Config, Monitor, set_gateway_status, on_probed, on_half_life}

-- The gateway status that the routing is left with, from the one before.
abbrev pub status_after : Bool → List Action → Bool
status_after b [] = b
status_after b (set_gateway_status v ∷ acts) = status_after v acts
status_after b (_ ∷ acts) = status_after b acts

-- The call does not abort, and its new state and actions have the property.
abbrev pub Returns : (Monitor → List Action → Type 0) → Option (Monitor × List Action) → Type 0
Returns P none = ⊥
Returns P (some (m, acts)) = P m acts

-- A failed probe makes the node no gateway, whatever it was before, and touches no dampener.
pub on_probed_failed :
    (c : Config) (m : Monitor) (b : Bool)
    → c.has_routing ≡ true
    → Returns
        (λ n acts.
          (status_after b acts ≡ false) × (n.is_gateway_active ≡ false) × (n.dampener ≡ m.dampener))
        (on_probed c false m)
unfolding on_probed
on_probed_failed c m b r = ground arith

-- A successful probe makes the monitor active; it makes the node a gateway exactly when the route
-- was not dampened before the probe, and otherwise leaves the gateway status alone.
pub on_probed_succeeded :
    (c : Config) (m : Monitor) (b : Bool)
    → c.has_routing ≡ true
    → Returns
        (λ n acts.
          (n.is_gateway_active ≡ true)
          × (status_after b acts ≡ (if m.dampener.dampened then b else true)))
        (on_probed c true m)
unfolding on_probed flap
on_probed_succeeded c m b r = ground arith

-- Where the monitor has a Routing: when a monitor that is not active probes with success, and the flap that this counts as brings
-- the penalty to the suppress limit, then the route ends up dampened and the node a gateway all the
-- same; and the next successful probe leaves it so.
pub advertised_while_dampened :
    (c : Config) (m : Monitor) (b : Bool)
    → c.has_routing ≡ true
    → m.is_gateway_active ≡ false
    → m.dampener.dampened ≡ false
    → c.dampening.suppress_limit ≤ (m.dampener.history + c.dampening.penalty) % u32_mod
    → Returns
        (λ n acts.
          (n.dampener.dampened ≡ true)
          × (status_after b acts ≡ true)
          × (on_probed c true n ≡ some (n, [])))
        (on_probed c true m)
unfolding on_probed flap
advertised_while_dampened c m b r inactive free reached = ground arith

-- A half-life keeps the gateway status, except that it makes an active node a gateway again when
-- it releases the dampened route.
pub on_half_life-status :
    (c : Config) (m : Monitor) (b : Bool)
    → c.has_routing ≡ true
    → Returns
        (λ n acts. status_after b acts ≡ (
          if m.dampener.dampened && not n.dampener.dampened && m.is_gateway_active
          then true
          else b))
        (on_half_life c m)
unfolding on_half_life half_life_callback
on_half_life-status c m b r = ground arith
