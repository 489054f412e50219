-- ===== src/Rnl/Socket.antt =====
-- rnl/NetlinkSocket.cpp: the caches of routes, and the kernel behind `NetlinkProtocolSocket`, whose
-- calls are a parameter. A call answers with a result code, and 0 is success.
use Prim.Native.String.{String}
use fbmeshd.Prelude.{ℕ, ◌≡◌, none, some, List, [], nat_eq, ◌==◌, if◌then◌else◌, arith, refl}
use fbmeshd.Prelude.Dict.{find, insert, find-insert, beq_refl}
use fbmeshd.Rnl.{Prefix, Route, prefix_eq}

pub record NlSock (K : Type 0) : Type 0 where
  pub add_route : Route → K → K × ℕ
  pub delete_route : Route → K → K × ℕ
  pub add_label_route : Route → K → K × ℕ
  pub delete_label_route : Route → K → K × ℕ

abbrev pub UnicastRoutes : Type 0
UnicastRoutes = List (Prefix × Route)

abbrev pub MplsRoutes : Type 0
MplsRoutes = List (ℕ × Route)

-- Multicast and link routes are under a prefix and the name of an interface.
abbrev pub IfRoutes : Type 0
IfRoutes = List ((Prefix × String) × Route)

-- The caches, each by protocol, and the state of the kernel.
pub record Socket (K : Type 0) : Type 0 where
  pub unicast_cache : List (ℕ × UnicastRoutes)
  pub mpls_cache : List (ℕ × MplsRoutes)
  pub mcast_cache : List (ℕ × IfRoutes)
  pub link_cache : List (ℕ × IfRoutes)
  pub kernel : K

abbrev pub empty : {K : Type 0} → K → Socket K
empty kernel = record {
  unicast_cache = [];
  mpls_cache = [];
  mcast_cache = [];
  link_cache = [];
  kernel = kernel;
}

-- A call that throws keeps what it has changed before.
pub data Status : Type 0 where
  done : Status
  nl_exception : Status

abbrev pub Outcome : Type 0 → Type 0
Outcome K = Socket K × Status

-- What follows a call that may throw.
abbrev pub and_then : {K : Type 0} → Outcome K → (Socket K → Outcome K) → Outcome K
and_then (s, done) f = f s
and_then (s, nl_exception) f = (s, nl_exception)

-- What `operator[]` of a cache gives for a protocol: no routes if there is no entry.
abbrev pub cached {ℓ} : {A : Type ℓ} → ℕ → List (ℕ × List A) → List A
cached protocol m = elim (find protocol m) [ none ↦ [] | some routes ↦ routes ]

-- `unicastRoutesCache_[protocolId]`.
abbrev pub routes_of : {K : Type 0} → ℕ → Socket K → UnicastRoutes
routes_of protocol s = cached protocol s.unicast_cache

abbrev pub with_routes : {K : Type 0} → ℕ → UnicastRoutes → Socket K → Socket K
with_routes protocol routes s = record s { unicast_cache = insert protocol routes s.unicast_cache }

pub cached-insert {ℓ} :
    {A : Type ℓ} (p q : ℕ) (m : List A) (c : List (ℕ × List A))
    → cached q (insert p m c) ≡ (if p == q then m else cached q c)
cached-insert p q m c = ground (arith, find-insert p q m c)

pub cached-insert_same {ℓ} :
    {A : Type ℓ} (p : ℕ) (m : List A) (c : List (ℕ × List A)) → cached p (insert p m c) ≡ m
cached-insert_same p m c = rw (cached-insert p p m c, beq_refl p) refl
