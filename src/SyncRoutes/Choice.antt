-- ===== src/SyncRoutes/Choice.antt =====
-- routing/SyncRoutes80211s.cpp: which gate is chosen.
use fbmeshd.Prelude.{
  ℕ, ◌≤◌, ◌<◌, ◌≡◌, ◌≢◌, ◌⊎◌, inl, inr, refl, sym, ap, subst, Bool, true, false, Option, none, some,
  List, [], ◌∷◌, arith, ◌==◌, ltb, if◌then◌else◌, All, All-map, Bool-cases,
}
use fbmeshd.Routing.{MeshPath}
use fbmeshd.SyncRoutes.Gates.{
  Gate, Scan, is_current, better, is_live_gate, see, scan_path, scan, settle, choose,
}

-- The live gates of the mesh paths, with their metrics.
abbrev pub live_gates : ℕ → ℕ → List (ℕ × MeshPath) → List Gate
live_gates zero_mac now [] = []
live_gates zero_mac now ((a, p) ∷ paths) =
    let rest = live_gates zero_mac now paths in
    if is_live_gate zero_mac now p then (p.dst, p.metric) ∷ rest else rest

abbrev pub Any : {A : Type 0} → (A → Type 0) → List A → Type 0
Any P [] = ⊥
Any P (x ∷ xs) = P x ⊎ Any P xs

-- The best choice among some gates: none exactly when there is none, and otherwise one of them, with
-- the least metric; the current gate is left only for one with a smaller metric.
abbrev pub IsChoice : List Gate → Option Gate → Option Gate → Type 0
IsChoice gates current none = gates ≡ []
IsChoice gates current (some g) =
    Any (λ h. h ≡ g) gates
    × All (λ (h : Gate). g.1 ≤ h.1) gates
    × ((c : Gate)
        → current ≡ some c
        → Any (λ (h : Gate). h.0 ≡ c.0) gates
        → (g.0 ≡ c.0) ⊎ Any (λ (h : Gate). (h.0 ≡ c.0) × (g.1 < h.1)) gates)

see_all : List Gate → Scan → Scan
see_all [] s = s
see_all (g ∷ gates) s = see_all gates (see g s)

scan-live_gates :
    (z now : ℕ) (paths : List (ℕ × MeshPath)) (s : Scan)
    → scan z now paths s ≡ see_all (live_gates z now paths) s
unfolding scan see_all
scan-live_gates z now [] s = refl
scan-live_gates z now ((a, p) ∷ paths) s = elim (Bool-cases (is_live_gate z now p)) [
  | inl live ↦ rw (live, scan_path) (scan-live_gates z now paths (see (p.dst, p.metric) s))
  | inr other ↦ rw (other, scan_path) (scan-live_gates z now paths s)
]

-- The best gate, from a first one and those seen after it.
Best : Option Gate → List Gate → Option Gate → Type 0
Best o gates none = (o ≡ none) × (gates ≡ [])
Best o gates (some g) =
    ((o ≡ some g) ⊎ Any (λ h. h ≡ g) gates)
    × ((h : Gate) → o ≡ some h → g.1 ≤ h.1)
    × All (λ (h : Gate). g.1 ≤ h.1) gates

Best-step :
    (o : Option Gate) (g : Gate) (gates : List Gate) (b : Option Gate)
    → Best (if better o g.1 then some g else o) gates b
    → Best o (g ∷ gates) b
unfolding Best
Best-step none g gates none (e, n) = absurd (ground arith)
Best-step none g gates (some b) (m, l, a) =
    (inr (first-or_later m), λ h e. absurd (ground arith), (l g refl, a))
  where
    first-or_later : (some g ≡ some b) ⊎ Any (λ h. h ≡ b) gates → (g ≡ b) ⊎ Any (λ h. h ≡ b) gates
    first-or_later (inl e) = inl cc
    first-or_later (inr x) = inr x
Best-step (some o) g gates none h = absurd (ground (arith, h.0))
Best-step (some o) g gates (some b) h = elim (Bool-cases (ltb g.1 o.1)) [
  | inl less ↦
      let (m, l, a) : Best (some g) gates (some b) = rw less at h in
      (
        elim m [ inl e ↦ inr (inl cc) | inr x ↦ inr (inr x) ],
        λ k e. ground (arith, l g refl, less),
        (l g refl, a),
      )
  | inr more ↦
      let (m, l, a) : Best (some o) gates (some b) = rw more at h in
      (elim m [ inl e ↦ inl e | inr x ↦ inr (inr x) ], l, (ground (arith, l o refl, more), a))
]

Best-nil : (o : Option Gate) → Best o [] o
unfolding Best
Best-nil none = (refl, refl)
Best-nil (some g) = (inl refl, λ h e. ground (arith, e), tt)

see_all-Best : (gates : List Gate) (s : Scan) → Best s.best gates (see_all gates s).best
unfolding see_all see
see_all-Best [] s = Best-nil s.best
see_all-Best (g ∷ gates) s = Best-step s.best g gates _ (see_all-Best gates (see g s))

-- The current gate and whether it is alive, before and after some gates are seen.
abbrev Renewed : ℕ → List Gate → Option Gate → Type 0
Renewed c gates o = (m : ℕ) × (o ≡ some (c, m)) × Any (λ h. h ≡ (c, m)) gates

Kept : Option Gate → Bool → List Gate → Option Gate → Bool → Type 0
Kept none a gates o b = (o ≡ none) × (b ≡ a)
Kept (some c) a gates o b =
    ((o ≡ some c) × (b ≡ a) × All (λ (h : Gate). h.0 ≢ c.0) gates)
    ⊎ ((b ≡ true) × Renewed c.0 gates o)

Kept-step :
    (o : Option Gate) (a : Bool) (g : Gate) (gates : List Gate) (o' : Option Gate) (a' : Bool)
    → Kept
        (if is_current o g.0 then some g else o)
        (if is_current o g.0 then true else a)
        gates
        o'
        a'
    → Kept o a (g ∷ gates) o' a'
unfolding Kept
Kept-step none a g gates o' a' h = h
Kept-step (some c) a g gates o' a' h = elim (Bool-cases (c.0 == g.0)) [
  | inl same ↦
      let k : Kept (some g) true gates o' a' = rw same at h in
      let e : c.0 ≡ g.0 = ground (arith, same) in
      elim k [
        | inl (p, q, all) ↦
            let new : Renewed g.0 (g ∷ gates) o' = (g.1, p, inl refl) in
            inr (q, subst (λ d. Renewed d (g ∷ gates) o') (sym e) new)
        | inr (q, old) ↦
            let new : Renewed g.0 (g ∷ gates) o' = (old.0, old.1, inr old.2) in
            inr (q, subst (λ d. Renewed d (g ∷ gates) o') (sym e) new)
      ]
  | inr other ↦
      let k : Kept (some c) a gates o' a' = rw other at h in
      elim k [
        | inl (p, q, all) ↦ inl (p, q, ((λ e. ground (arith, other, e)), all))
        | inr (q, old) ↦ inr (q, (old.0, old.1, inr old.2))
      ]
]

Kept-nil : (o : Option Gate) (a : Bool) → Kept o a [] o a
unfolding Kept
Kept-nil none a = (refl, refl)
Kept-nil (some c) a = inl (refl, refl, tt)

see_all-Kept :
    (gates : List Gate) (s : Scan)
    → Kept s.current s.is_current_gate_still_alive gates
        (see_all gates s).current
        (see_all gates s).is_current_gate_still_alive
unfolding see_all see
see_all-Kept [] s = Kept-nil s.current s.is_current_gate_still_alive
see_all-Kept (g ∷ gates) s =
    Kept-step s.current s.is_current_gate_still_alive g gates _ _ (see_all-Kept gates (see g s))

Any-least :
    (c n : ℕ) (m : ℕ) (gates : List Gate)
    → Any (λ h. h ≡ (c, m)) gates
    → n < m
    → Any (λ (h : Gate). (h.0 ≡ c) × (n < h.1)) gates
Any-least c n m (g ∷ gates) (inl e) lt = inl (ap (λ h. h.0) e, ground (arith, ap (λ h. h.1) e, lt))
Any-least c n m (g ∷ gates) (inr x) lt = inr (Any-least c n m gates x lt)
Any-least c n m [] x lt = elim x [ ]

All-not-Any :
    (c : ℕ) (gates : List Gate)
    → All (λ (h : Gate). h.0 ≢ c) gates
    → Any (λ (h : Gate). h.0 ≡ c) gates
    → ⊥
All-not-Any c [] all x = x
All-not-Any c (g ∷ gates) all (inl e) = all.0 e
All-not-Any c (g ∷ gates) all (inr x) = All-not-Any c gates all.1 x

abbrev pub Settled : List Gate → Option Gate → Option (Option Gate) → Type 0
Settled gates current none = ⊥
Settled gates current (some o) = IsChoice gates current o

All-le :
    (m n : ℕ) (gates : List Gate)
    → m ≤ n
    → All (λ (h : Gate). n ≤ h.1) gates
    → All (λ (h : Gate). m ≤ h.1) gates
All-le m n gates le = All-map (λ h l. omega (arith, l, le)) gates

settle-dead :
    (gates : List Gate) (o b : Option Gate)
    → Best none gates b
    → ((c : Gate) → o ≡ some c → Any (λ (h : Gate). h.0 ≡ c.0) gates → ⊥)
    → IsChoice gates o b
unfolding Best
settle-dead gates o none h dead = h.1
settle-dead gates o (some g) (inl e, l, a) dead = absurd (ground (arith, e))
settle-dead gates o (some g) (inr m, l, a) dead = (m, a, λ c e x. absurd (dead c e x))

alive-Settled :
    (gates : List Gate) (c : Gate) (m : ℕ) (b : Option Gate)
    → Best none gates b
    → Any (λ h. h ≡ (c.0, m)) gates
    → Settled gates (some c) (settle (some (c.0, m)) b true)
unfolding Best
alive-Settled [] c m none best any = any
alive-Settled (g ∷ gates) c m none best any = absurd (ground (arith, best.1))
alive-Settled gates c m (some (d, n)) (inl e, l, all) any = absurd (ground (arith, e))
alive-Settled gates c m (some (d, n)) (inr x, l, all) any = elim (Bool-cases (ltb n m)) [
  | inl less ↦ rw less (
    x,
    all,
    λ k e y.
        let same : c.0 ≡ k.0 = ground (arith, e) in
        inr (
          subst (λ i. Any (λ (h : Gate). (h.0 ≡ i) × (n < h.1)) gates) same
            (Any-least c.0 n m gates any (ground (arith, less)))),
  )
  | inr more ↦
      rw more (any, All-le m n gates (ground (arith, more)) all, λ k e y. inl (ground (arith, e)))
]

settle-Settled :
    (gates : List Gate) (current o b : Option Gate) (alive : Bool)
    → Best none gates b
    → Kept current false gates o alive
    → Settled gates current (settle o b alive)
unfolding Kept
settle-Settled gates none o b alive best (p, q) =
    rw p (settle-dead gates none b best (λ c e x. ground (arith, e)))
settle-Settled gates (some c) o b alive best (inl (p, q, all)) =
    rw (p, q)
      (settle-dead gates (some c) b best (λ k e x.
        let same : k.0 ≡ c.0 = ground (arith, e) in
        All-not-Any c.0 gates all (subst (λ i. Any (λ (h : Gate). h.0 ≡ i) gates) same x)))
settle-Settled gates (some c) o b alive best (inr (q, (m, p, any))) =
    rw (p, q) (alive-Settled gates c m b best any)

-- The gate after a sync is a best choice among the live gates of the mesh paths: there is none
-- exactly when no gate is alive, and otherwise it is a live gate with the least metric, and the
-- current one is left only for one with a smaller metric. The code never uses a best gate that there
-- is not.
pub choose-Settled :
    (zero_mac now : ℕ) (paths : List (ℕ × MeshPath)) (current : Option Gate)
    → Settled (live_gates zero_mac now paths) current (choose zero_mac now paths current)
unfolding choose
choose-Settled z now paths current =
    let gates = live_gates z now paths in
    let s : Scan = record { current = current; best = none; is_current_gate_still_alive = false } in
    rw (scan-live_gates z now paths s)
      (settle-Settled gates current _ _ _ (see_all-Best gates s) (see_all-Kept gates s))
