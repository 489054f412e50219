-- ===== src/Rnl/Sync/Filed.antt =====
-- rnl/NetlinkSocket.cpp: cached routes under their prefix and protocol, and chains of calls.
use fbmeshd.Prelude.{ℕ, ◌≡◌, refl, arith, nat_eq, ◌==◌, if◌then◌else◌, All}
use fbmeshd.Prelude.Dict.{find-insert}
use fbmeshd.Rnl.Socket.{
  UnicastRoutes, Socket, done, nl_exception, Outcome, and_then, routes_of, with_routes,
}

-- A cached route is under its own prefix, in the cache of its protocol.
abbrev pub IsFiled : ℕ → UnicastRoutes → Type 0
IsFiled protocol = All λ e. (e.1.destination ≡ e.0) × (e.1.protocol_id ≡ protocol)

pub routes_of-with_routes :
    {K : Type 0} (p q : ℕ) (m : UnicastRoutes) (s : Socket K)
    → routes_of q (with_routes p m s) ≡ (if p == q then m else routes_of q s)
routes_of-with_routes p q m s = ground (arith, find-insert p q m s.unicast_cache)

pub and_then-done :
    {K : Type 0} (r : Outcome K) (f : Socket K → Outcome K)
    → (and_then r f).1 ≡ done
    → (r.1 ≡ done) × (and_then r f ≡ f r.0)
and_then-done (s, done) f h = (refl, refl)
and_then-done (s, nl_exception) f h = cc
