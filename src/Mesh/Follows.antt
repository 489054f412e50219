-- ===== src/Mesh/Follows.antt =====
-- 802.11s/Nl80211Handler.cpp: what the calls that bring a mesh up leave as it was. They change the
-- index and the node's configuration of an interface, and send messages.
use mathlib.Core.List.{append_assoc, append-nil}
use fbmeshd.Prelude.{
  ℕ, ◌≡◌, refl, sym, ap, ◌∙◌, Bool, true, false, Option, none, some, List, [], ◌∷◌, ◌++◌, ◌==◌,
  if◌then◌else◌, nat_eq, Bool-cases, inl, inr,
}
use fbmeshd.Prelude.Dict.{find, is_some}
use fbmeshd.Mesh.{Result, ok, throw, value}
use fbmeshd.Mesh.Messages.{Message}
use fbmeshd.Mesh.Handler.{
  NetInterface, Nl80211Handler, Driver, World, Action, ◌>>=◌, pure, lift, gets, check, Yields,
  continue-Yields, Yields-map, send, send_on_events,
}
use fbmeshd.Mesh.Wiphy.{new_conf}
use fbmeshd.Mesh.Links.{adjust, netif_from_phy, change, checked_index, found_or_throw}

-- An interface without what bringing it up changes, and the same with its index.
abbrev pub settings : NetInterface → NetInterface
settings n = record n { maybe_if_index = none; band_5ghz = false; conf = new_conf }

abbrev pub with_index : NetInterface → NetInterface
with_index n = record n { band_5ghz = false; conf = new_conf }

-- What a view of the interfaces shows of one.
abbrev pub seen_in : (NetInterface → NetInterface) → Option NetInterface → Option NetInterface
seen_in view none = none
seen_in view (some n) = some (view n)

-- The list has a message.
abbrev pub Has : Message → List Message → Type 0
Has m l = (before after : List Message) × (l ≡ before ++ m ∷ after)

Has-append : (m : Message) (l more : List Message) → Has m l → Has m (l ++ more)
Has-append m l more (before, after, e) =
    (before, after ++ more, rw e (append_assoc before (m ∷ after) more))

seen-adjust :
    (view g : NetInterface → NetInterface) (key j : ℕ) (m : List (ℕ × NetInterface))
    → ((n : NetInterface) → view (g n) ≡ view n)
    → seen_in view (find j (adjust key g m)) ≡ seen_in view (find j m)
unfolding adjust
seen-adjust view g key j [] h = refl
seen-adjust view g key j ((k, n) ∷ m) h = elim (Bool-cases (k == key)) [
  | inl same ↦
      rw same
        (elim (Bool-cases (k == j)) [ inl found ↦ rw found (ap some (h n)) | inr other ↦ rw other ])
  | inr apart ↦ rw apart (elim (Bool-cases (k == j)) [
    | inl found ↦ rw found
    | inr other ↦ rw other (seen-adjust view g key j m h)
  ])
]

module _ {K : Type 0} (view : NetInterface → NetInterface) where
  abbrev pub seen : ℕ → World K → Option NetInterface
  seen key w = seen_in view (find key w.handler.net_interfaces)

  pub record Follows (w w' : World K) : Type 0 where
    pub same : (key : ℕ) → seen key w' ≡ seen key w
    pub more : List Message
    pub longer : w'.sent ≡ w.sent ++ more
    pub userspace : w'.handler.userspace_mesh_peering ≡ w.handler.userspace_mesh_peering

  -- A call that, when it ends with a value, has changed nothing else.
  pub record IsMild {A : Type 0} (m : Action K A) : Type 0 where
    pub follows : (w : World K) → Yields (λ _ w'. Follows w w') (m w)

module _ {K : Type 0} {view : NetInterface → NetInterface} where
  pub Follows-refl : (w : World K) → Follows view w w
  Follows-refl w = record {
    same = λ key. refl;
    more = [];
    longer = sym (append-nil w.sent);
    userspace = refl;
  }

  pub Follows-trans : (u v w : World K) → Follows view u v → Follows view v w → Follows view u w
  Follows-trans u v w f g = record {
    same = λ key. g.same key ∙ f.same key;
    more = f.more ++ g.more;
    longer = g.longer ∙ (rw (f.longer) (append_assoc u.sent f.more g.more));
    userspace = g.userspace ∙ f.userspace;
  }

  pub Follows-Has :
      (m : Message) (w w' : World K) → Follows view w w' → Has m w.sent → Has m w'.sent
  Follows-Has m w w' f h = rw (f.longer) (Has-append m w.sent f.more h)

  pub bind-IsMild :
      {A B : Type 0} (m : Action K A) (f : A → Action K B)
      → IsMild {K = K} view m
      → ((a : A) → IsMild {K = K} view (f a))
      → IsMild {K = K} view (m >>= f)
  bind-IsMild m f hm hf = record {
    follows = λ w.
        continue-Yields (λ _ w'. Follows view w w') (λ _ w'. Follows view w w') (m w) f
          (hm.follows w)
          λ a w1 h1.
            Yields-map (λ _ w'. Follows view w1 w') (λ _ w'. Follows view w w') (f a w1)
              ((hf a).follows w1) λ b w2 h2. Follows-trans w w1 w2 h1 h2;
  }

  ends-Yields :
      {A : Type 0} (r : Result A) (w w' : World K)
      → Follows view w w'
      → Yields (λ _ w''. Follows view w w'') (r, w')
  ends-Yields (ok a) w w' h = h
  ends-Yields (throw e) w w' h = tt

  pub lift-IsMild : {A : Type 0} (r : Result A) → IsMild {K = K} view (lift r)
  lift-IsMild r = record { follows = λ w. ends-Yields r w w (Follows-refl w) }

  pub pure-IsMild : {A : Type 0} (a : A) → IsMild {K = K} view (pure a)
  pure-IsMild a = record { follows = λ w. Follows-refl w }

  pub gets-IsMild : {A : Type 0} (f : Nl80211Handler → A) → IsMild {K = K} view (gets f)
  gets-IsMild f = record { follows = λ w. Follows-refl w }

  pub netif_from_phy-IsMild : (phy : ℕ) → IsMild {K = K} view (netif_from_phy phy)
  netif_from_phy-IsMild phy = record {
    follows =
        λ w. ends-Yields (found_or_throw (find phy w.handler.net_interfaces)) w w (Follows-refl w);
  }

  pub check-IsMild : (b : Bool) → IsMild {K = K} view (check b)
  check-IsMild b = record { follows = λ w. ends-Yields _ w w (Follows-refl w) }

  pub checked_index-IsMild : (n : NetInterface) → IsMild {K = K} view (checked_index n)
  checked_index-IsMild n =
      bind-IsMild (check (is_some n.maybe_if_index)) (λ _. lift (value n.maybe_if_index))
        (check-IsMild (is_some n.maybe_if_index)) (λ _. lift-IsMild (value n.maybe_if_index))

  pub change-IsMild :
      (key : ℕ) (g : NetInterface → NetInterface)
      → ((n : NetInterface) → view (g n) ≡ view n)
      → IsMild {K = K} view (change key g)
  change-IsMild key g h = record {
    follows = λ w. record {
      same = λ j. seen-adjust view g key j w.handler.net_interfaces h;
      more = [];
      longer = sym (append-nil w.sent);
      userspace = refl;
    };
  }

  pub sent-Follows :
      (w : World K) (k : K) (m : Message)
      → Follows view w (record w { kernel = k; sent = w.sent ++ m ∷ [] })
  sent-Follows w k m = record { same = λ key. refl; more = m ∷ []; longer = refl; userspace = refl }

  pub send-IsMild : (d : Driver K) (m : Message) → IsMild {K = K} view (send d m)
  unfolding send
  send-IsMild d m = record {
    follows = λ w.
        ends-Yields _ w (record w { kernel = (d.exchange m w.kernel).1; sent = w.sent ++ m ∷ [] })
          (sent-Follows w (d.exchange m w.kernel).1 m);
  }

  pub send_on_events-IsMild :
      (d : Driver K) (m : Message) → IsMild {K = K} view (send_on_events d m)
  send_on_events-IsMild d m = record { follows = λ w. sent-Follows w (d.send_event m w.kernel) m }

  -- A call that only changes the state of the kernel.
  pub kernel-Follows : (w : World K) (k : K) → Follows view w (record w { kernel = k })
  kernel-Follows w k = record {
    same = λ key. refl;
    more = [];
    longer = sym (append-nil w.sent);
    userspace = refl;
  }

  pub if-IsMild :
      {A : Type 0} (b : Bool) (m n : Action K A)
      → IsMild {K = K} view m
      → IsMild {K = K} view n
      → IsMild {K = K} view (if b then m else n)
  if-IsMild true m n hm hn = hm
  if-IsMild false m n hm hn = hn

pub ruleset mild = (
  bind-IsMild, lift-IsMild, pure-IsMild, gets-IsMild, netif_from_phy-IsMild, check-IsMild,
  checked_index-IsMild, send-IsMild, send_on_events-IsMild, if-IsMild,
)
