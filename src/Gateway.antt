-- ===== src/Gateway.antt =====
-- gateway-connectivity-monitor/GatewayConnectivityMonitor.cpp: probing the WAN, and advertising the
-- node addrs a gateway while the probe succeeds and the route is not dampened.
--
-- What the monitor calls (the debug file system, the statistics, the root mode of the driver, the
-- gateway status of the routing) is a list of actions, in the code's order. `Socket::connect` is a
-- parameter: `connect n a` is the result of the n-th round's attempt at the address `a`, `none` for
-- success and the error message otherwise.
pub mod Probe
pub mod Advertise
mod Examples
use Prim.Native.String.{String}
use fbmeshd.Prelude.{
  ℕ, zero, suc, ◌+◌, ◌≡◌, refl, Bool, true, false, Option, none, some, List, [], ◌∷◌, ◌++◌, ◌==◌,
  if◌then◌else◌,
}
use fbmeshd.Dampener.{
  Params, Dampener, Effect, Stat, Run, flap, half_life_callback, max_suppress_limit_callback,
}

pub data Action : Type 0 where
  write_is_gateway : Bool → Action
  set_root_mode : ℕ → Action
  set_gateway_status : Bool → Action
  probe_success : Action
  probe_failed : String → Action
  set_avg_stat : Stat → ℕ → Action

pub record Config : Type 0 where
  pub dampening : Params
  pub robustness : ℕ
  pub set_root_mode_if_gate : ℕ
  pub has_routing : Bool

pub record Monitor : Type 0 where
  pub dampener : Dampener
  pub is_gateway_active : Bool

module _ {A : Type 0} (connect : ℕ → A → Option String) where
  -- The loop of `probeWanConnectivity` over the addresses: `none` when a connection succeeded, and
  -- else the message of the last attempt, `last` before the first.
  pub attempts : ℕ → String → List A → Option String
  attempts round last [] = some last
  attempts round last (a ∷ rest) = elim (connect round a) [
    | none ↦ none
    | some msg ↦ attempts round msg rest
  ]

  pub probe_wan_connectivity : ℕ → List A → Bool × List Action
  unfolding attempts
  probe_wan_connectivity round addrs = elim (attempts round "" addrs) [
    | none ↦ (true, probe_success ∷ [])
    | some msg ↦ (false, probe_failed msg ∷ [])
  ]

  -- `probeWanConnectivityRobustly`: the rounds `tryNum`, ..., with `left` rounds to go.
  pub probe_rounds : ℕ → ℕ → List A → Bool × List Action
  unfolding probe_wan_connectivity
  probe_rounds zero try_num addrs = (false, [])
  probe_rounds (suc left) try_num addrs =
      let (success, acts) = probe_wan_connectivity try_num addrs in
      elim success [
        | true ↦ (true, acts)
        | false ↦ let (found, more) = probe_rounds left (suc try_num) addrs in (found, acts ++ more)
      ]

  pub probe_wan_connectivity_robustly : Config → List A → Bool × List Action
  unfolding probe_rounds
  probe_wan_connectivity_robustly c addrs = probe_rounds c.robustness 0 addrs

pub advertise_default_route : Config → List Action
advertise_default_route c =
    (if c.set_root_mode_if_gate == 0 then [] else set_root_mode c.set_root_mode_if_gate ∷ [])
    ++ (if c.has_routing then set_gateway_status true ∷ [] else [])

pub withdraw_default_route : Config → List Action
withdraw_default_route c =
    (if c.set_root_mode_if_gate == 0 then [] else set_root_mode 0 ∷ [])
    ++ (if c.has_routing then set_gateway_status false ∷ [] else [])

-- The overrides of the virtual functions of the dampener. `isGatewayActive_` does not change while
-- the dampener runs.
pub react : Config → Bool → Effect → List Action
unfolding advertise_default_route withdraw_default_route
react c active (Effect.set_stat s v) = set_avg_stat s v ∷ []
react c active Effect.dampen =
    if active then write_is_gateway false ∷ withdraw_default_route c else []
react c active Effect.undampen =
    if active then write_is_gateway true ∷ advertise_default_route c else []
react c active Effect.user_half_life_timer_expired = []
react c active Effect.user_suppress_limit_timer_expired = []

pub react_all : Config → Bool → List Effect → List Action
unfolding react
react_all c active [] = []
react_all c active (e ∷ es) = react c active e ++ react_all c active es

-- A call into the dampener; `none` is an abort.
pub with_dampener : Config → Monitor → Run → Option (Monitor × List Action)
unfolding react_all
with_dampener c m none = none
with_dampener c m (some (d, es)) =
    some (record m { dampener = d }, react_all c m.is_gateway_active es)

abbrev pub prepend : List Action → Option (Monitor × List Action) → Option (Monitor × List Action)
prepend acts none = none
prepend acts (some (m, more)) = some (m, acts ++ more)

abbrev pub activate : Option (Monitor × List Action) → Option (Monitor × List Action)
activate none = none
activate (some (m, acts)) = some (record m { is_gateway_active = true }, acts)

-- `checkRoutesAndAdvertise` after the probe.
pub on_probed : Config → Bool → Monitor → Option (Monitor × List Action)
unfolding with_dampener advertise_default_route withdraw_default_route
on_probed c false m =
    some (record m { is_gateway_active = false }, write_is_gateway false ∷ withdraw_default_route c)
on_probed c true m =
    prepend (if m.dampener.dampened then [] else write_is_gateway true ∷ advertise_default_route c)
      (activate (
        if m.is_gateway_active
        then some (m, [])
        else with_dampener c m (flap c.dampening m.dampener)))

pub check_routes_and_advertise :
    {A : Type 0} (connect : ℕ → A → Option String)
    → Config
    → List A
    → Monitor
    → Option (Monitor × List Action)
unfolding on_probed probe_wan_connectivity_robustly
check_routes_and_advertise connect c addrs m =
    let (success, acts) = probe_wan_connectivity_robustly connect c addrs in
    prepend acts (on_probed c success m)

pub on_half_life : Config → Monitor → Option (Monitor × List Action)
unfolding with_dampener
on_half_life c m = with_dampener c m (half_life_callback c.dampening m.dampener)

pub on_max_suppress_limit : Config → Monitor → Option (Monitor × List Action)
unfolding with_dampener
on_max_suppress_limit c m = with_dampener c m (max_suppress_limit_callback m.dampener)
