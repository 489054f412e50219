-- ===== src/Mesh/Lengths.antt =====
-- 802.11s/AuthsaeCallbackHelpers.cpp: links, which are established only with keys of the right
-- lengths, and the bounds of a delay.
use fbmeshd.Prelude.{
  Bool, ◌⊎◌, ◌↔◌, Option, ℕ, ◌+◌, ◌/◌, ◌≤◌, ◌≡◌, sym, subst, ◌||◌, inl, inr, true, false, not, none,
  some, ◌&&◌, arith, if◌then◌else◌, nat_eq, Bool-cases,
}
use fbmeshd.Prelude.Dict.{is_some}
use fbmeshd.Mesh.{Bytes}
use fbmeshd.Mesh.Handler.{Driver, World, Action, ◌>>=◌, pure}
use fbmeshd.Mesh.Commands.{KeyLengths}
use fbmeshd.Mesh.Events.{Candidate, FrameApi, PeerApi, find_peer_action}
use fbmeshd.Mesh.Callbacks.{
  LinkKeys, has_key_lengths, establish, estab_peer_link, establish_configured, timeout_with_jitter,
}

-- The keys have the lengths that their ciphers ask for, where a key for management frames is given
-- at all.
pub record HasLengths (lengths : KeyLengths) (k : LinkKeys) : Type 0 where
  pub pairwise_key : k.mtk_len ≡ lengths.ccmp
  pub group_key : k.mgtk_len ≡ lengths.ccmp
  pub management_key : (k.igtk ≡ none) ⊎ (k.igtk_len ≡ lengths.cmac)

-- Whether a link is established with a peer.
pub data Established (lengths : KeyLengths) (k : LinkKeys) (c : Candidate) : Bool → Type 0 where
  of_open_mesh : c.is_secure ≡ false → Established lengths k c true
  with_keys : HasLengths lengths k → Established lengths k c true
  refused : c.is_secure ≡ true → ¬ HasLengths lengths k → Established lengths k c false

given_iff : (o : Option Bytes) → (is_some o ≡ false) ↔ (o ≡ none)
given_iff none = ground arith
given_iff (some a) = ground arith

lengths_iff :
    (lengths : KeyLengths) (k : LinkKeys)
    → (has_key_lengths lengths k ≡ true) ↔ HasLengths lengths k
unfolding has_key_lengths
lengths_iff lengths k = (
  λ h. record {
    pairwise_key = ground arith;
    group_key = ground arith;
    management_key = let absent = given_iff k.igtk in ground arith;
  },
  λ h.
      let pairwise_key = h.pairwise_key in
      let group_key = h.group_key in
      let management_key = h.management_key in let absent = given_iff k.igtk in ground arith,
)

module _ {K : Type 0} (d : Driver K) (frames : FrameApi) (peers : PeerApi K) where
  -- The peer that is found with a configuration, at once or among the accepted ones.
  abbrev pub IsConfiguredPeer : Bytes → Candidate → World K → Type 0
  IsConfiguredPeer peer c w =
      (c.has_conf ≡ true)
      × ((peers.find_peer peer false w.kernel ≡ some c)
          ⊎ ((first : Candidate) × (peers.find_peer peer false w.kernel ≡ some first)
              × (first.has_conf ≡ false)
              × (peers.find_peer peer true w.kernel ≡ some c)))

  abbrev pub outcome : KeyLengths → Bytes → LinkKeys → Candidate → Bool → Action K (Unit {0})
  outcome lengths peer k c true = establish d frames peers lengths peer k c
  outcome lengths peer k c false = pure tt

  checked :
      (lengths : KeyLengths) (k : LinkKeys) (c : Candidate) (b : Bool)
      → c.has_conf ≡ true
      → Established lengths k c b
      → (not c.has_conf || (c.is_secure && not (has_key_lengths lengths k))) ≡ not b
  checked lengths k c b conf (of_open_mesh o) = ground arith
  checked lengths k c b conf (with_keys h) = let known = (lengths_iff lengths k).1 h in ground arith
  checked lengths k c b conf (refused secure wrong) =
      elim (Bool-cases (has_key_lengths lengths k)) [
        | inl e ↦ absurd (wrong ((lengths_iff lengths k).0 e))
        | inr e ↦ ground arith
      ]

  establish_configured-Outcome :
      (lengths : KeyLengths) (peer : Bytes) (k : LinkKeys) (c : Candidate) (b : Bool) (w : World K)
      → c.has_conf ≡ true
      → Established lengths k c b
      → establish_configured d frames peers lengths peer k (some c) w ≡ outcome lengths peer k c b w
  establish_configured-Outcome lengths peer k c true w conf h = rw (checked lengths k c true conf h)
  establish_configured-Outcome lengths peer k c false w conf h =
      rw (checked lengths k c false conf h)

  -- With a peer that is found with a configuration, a link is established unless the mesh is secure
  -- and a key has not the length of its cipher: then no station is made or authenticated, no key is
  -- installed, and nothing changes.
  pub estab_peer_link_lengths :
      (lengths : KeyLengths) (peer : Bytes) (k : LinkKeys) (c : Candidate) (b : Bool) (w : World K)
      → IsConfiguredPeer peer c w
      → Established lengths k c b
      → estab_peer_link d frames peers lengths (some peer) k w ≡ outcome lengths peer k c b w
  unfolding estab_peer_link
  estab_peer_link_lengths lengths peer k c b w (conf, inl found) h = rw found (
      subst
        (λ x.
          (if x
              then establish_configured d frames peers lengths peer k (some c)
              else (find_peer_action d frames peers peer true >>= λ o.
                  establish_configured d frames peers lengths peer k o))
            w
          ≡ outcome lengths peer k c b w)
        (sym conf) (establish_configured-Outcome lengths peer k c b w conf h))
  estab_peer_link_lengths lengths peer k c b w (conf, inr (first, found, bare, again)) h =
      rw found (rw bare (rw again (establish_configured-Outcome lengths peer k c b w conf h)))

-- The jitter of a delay moves it down by at most half of itself and up by no more than itself, and
-- the delay is never 0. It holds for a jitter of a millisecond or more.
pub timeout_with_jitter_bounds :
    (usec jitter random : ℕ)
    → 1000 ≤ jitter
    → (1 ≤ timeout_with_jitter usec jitter random)
      × (timeout_with_jitter usec jitter random ≤ usec / 1000 + jitter / 1000)
      × (usec / 1000 ≤ timeout_with_jitter usec jitter random + jitter / 1000 / 2)
unfolding timeout_with_jitter
timeout_with_jitter_bounds usec jitter random h = ground arith
