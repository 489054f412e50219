-- ===== src/Gateway/Probe.antt =====
-- GatewayConnectivityMonitor.cpp: what a successful probe means.
use Prim.Native.String.{String}
use mathlib.Core.List.{Memᴰ}
use fbmeshd.Prelude.{
  ℕ, zero, suc, ◌+◌, ◌≤◌, ◌<◌, ◌≡◌, ◌≢◌, ◌↔◌, inl, inr, refl, sym, ap, subst, true, false, Option,
  none, List, [], ◌∷◌, arith, Option-cases, Bool-cases,
}
use fbmeshd.Gateway.{
  Config, attempts, probe_wan_connectivity, probe_rounds, probe_wan_connectivity_robustly,
}

module _ {A : Type 0} (connect : ℕ → A → Option String) where
  -- Some round reached some address.
  abbrev pub Reached : ℕ → ℕ → List A → Type 0
  Reached first end addrs =
      (r : ℕ) × (a : A) × (first ≤ r) × (r < end) × Memᴰ a addrs × (connect r a ≡ none)

  attempts-found :
      (round : ℕ) (last : String) (addrs : List A)
      → attempts connect round last addrs ≡ none
      → (a : A) × Memᴰ a addrs × (connect round a ≡ none)
  unfolding attempts
  attempts-found round last [] h = cc
  attempts-found round last (a ∷ rest) h = elim (Option-cases (connect round a)) [
    | inl e ↦ (a, Memᴰ.head refl, e)
    | inr (msg, e) ↦
        let (b, m, f) = attempts-found round msg rest (rw (e, attempts) at h) in (b, Memᴰ.tail m, f)
  ]

  found-attempts :
      (round : ℕ) (last : String) (addrs : List A) (a : A)
      → Memᴰ a addrs
      → connect round a ≡ none
      → attempts connect round last addrs ≡ none
  unfolding attempts
  found-attempts round last [] a m f = elim m [ ]
  found-attempts round last (b ∷ rest) a (Memᴰ.head e) f = ground (arith, ap (connect round) e)
  found-attempts round last (b ∷ rest) a (Memᴰ.tail m) f = elim (Option-cases (connect round b)) [
    | inl e ↦ rw (e, attempts) refl
    | inr (msg, e) ↦ rw (e, attempts) (found-attempts round msg rest a m f)
  ]

  probe_lem :
      (round : ℕ) (addrs : List A)
      → ((probe_wan_connectivity connect round addrs).0 ≡ true)
        ↔ (attempts connect round "" addrs ≡ none)
  unfolding probe_wan_connectivity
  probe_lem round addrs = ground arith

  rounds-Reached :
      (left first : ℕ) (addrs : List A)
      → (probe_rounds connect left first addrs).0 ≡ true
      → Reached first (first + left) addrs
  unfolding probe_rounds
  rounds-Reached zero first addrs h = cc
  rounds-Reached (suc left) first addrs h =
      elim (Bool-cases (probe_wan_connectivity connect first addrs).0) [
        | inl e ↦
            let (a, m, f) = attempts-found first "" addrs ((probe_lem first addrs).0 e) in
            (first, a, omega arith, omega arith, m, f)
        | inr e ↦
            let (r, a, lo, hi, m, f) =
              rounds-Reached left (suc first) addrs (rw (e, probe_rounds) at h) in
            (r, a, omega arith, omega arith, m, f)
      ]

  missed :
      (first r : ℕ) (addrs : List A) (a : A)
      → (probe_wan_connectivity connect first addrs).0 ≡ false
      → Memᴰ a addrs
      → connect r a ≡ none
      → first ≢ r
  missed first r addrs a e m f q =
      let fits : connect first a ≡ none = subst (λ k. connect k a ≡ none) (sym q) f in
      cc ((probe_lem first addrs).1 (found-attempts first "" addrs a m fits))

  Reached-rounds :
      (left first : ℕ) (addrs : List A) (r : ℕ) (a : A)
      → first ≤ r
      → r < first + left
      → Memᴰ a addrs
      → connect r a ≡ none
      → (probe_rounds connect left first addrs).0 ≡ true
  unfolding probe_rounds
  Reached-rounds zero first addrs r a lo hi m f = absurd (omega arith)
  Reached-rounds (suc left) first addrs r a lo hi m f =
      elim (Bool-cases (probe_wan_connectivity connect first addrs).0) [
        | inl e ↦ rw (e, probe_rounds) refl
        | inr e ↦
            rw (e, probe_rounds)
              (Reached-rounds left (suc first) addrs r a
                (omega (arith, missed first r addrs a e m f)) (omega arith) m f)
      ]

  -- The robust probe succeeds exactly when, in one of the `robustness_` rounds, the connection to one
  -- of the monitored addresses succeeds.
  pub probe_robustly_iff :
      (c : Config) (addrs : List A)
      → ((probe_wan_connectivity_robustly connect c addrs).0 ≡ true) ↔ Reached 0 c.robustness addrs
  unfolding probe_wan_connectivity_robustly
  probe_robustly_iff c addrs = (
    λ h.
        let (r, a, lo, hi, m, f) = rounds-Reached c.robustness 0 addrs h in
        (r, a, lo, omega arith, m, f),
    λ (r, a, lo, hi, m, f). Reached-rounds c.robustness 0 addrs r a lo (omega arith) m f,
  )
