-- ===== src/Mesh/Served.antt =====
-- 802.11s/Nl80211Handler.cpp: what it is that an interface has been joined.
use fbmeshd.Prelude.{
  ℕ, ◌≡◌, ◌⊎◌, ◌↔◌, refl, sym, ap, subst, ◌∙◌, Bool, true, false, ◌||◌, Option, none, some, List,
  [], ◌∷◌, nat_eq, arith, some_injective,
}
use fbmeshd.Prelude.Int.{ℤ}
use fbmeshd.Prelude.Dict.{find, is_some}
use fbmeshd.Mesh.{Bytes, Exception, Result, ok, throw, to_unsigned}
use fbmeshd.Mesh.Messages.{Message, Command, Attribute, MeshParam, MeshSetup}
use fbmeshd.Mesh.Handler.{NetInterface, Driver, World, caught, Yields}
use fbmeshd.Mesh.Links.{Status, success, is_success, is_valid, found_or_throw}
use fbmeshd.Mesh.Join.{rsn_information_elements}
use fbmeshd.Mesh.Follows.{settings, with_index, seen, seen_in, Has, Follows, Follows-Has}

abbrev pub IsIn : {A : Type 0} → A → List A → Type 0
IsIn a [] = ⊥
IsIn a (x ∷ xs) = (a ≡ x) ⊎ IsIn a xs

-- The members of NL80211_ATTR_MESH_CONFIG for an interface with the settings s.
pub record AreParams (s : NetInterface) (ps : List MeshParam) : Type 0 where
  pub threshold :
      (t : ℤ)
      → s.maybe_rssi_threshold ≡ some t
      → IsIn (MeshParam.rssi_threshold (to_unsigned 32 t)) ps
  pub peers : IsIn (MeshParam.max_peer_links s.max_peer_links) ps
  pub ttl : IsIn (MeshParam.ttl s.ttl) ps
  pub element_ttl : IsIn (MeshParam.element_ttl s.element_ttl) ps
  pub timeout : IsIn (MeshParam.hwmp_active_path_timeout s.hwmp_active_path_timeout) ps
  pub interval : IsIn (MeshParam.hwmp_rann_interval s.hwmp_rann_interval) ps

-- Those of NL80211_ATTR_MESH_SETUP where peering is done in userspace: SAE and the RSNE only where
-- the mesh is encrypted.
pub record IsSetup (encrypted : Bool) (setup : List MeshSetup) : Type 0 where
  pub peering : IsIn MeshSetup.userspace_mpm setup
  pub authentication : (encrypted ≡ true) ↔ IsIn MeshSetup.userspace_auth setup
  pub encryption : (encrypted ≡ true) ↔ IsIn MeshSetup.userspace_ampe setup
  pub protocol : encrypted ≡ true → IsIn (MeshSetup.auth_protocol 1) setup
  pub elements : encrypted ≡ true → IsIn (MeshSetup.setup_ie rsn_information_elements) setup

seen-weaker :
    (o : Option NetInterface) → seen_in settings o ≡ seen_in settings (seen_in with_index o)
seen-weaker none = refl
seen-weaker (some n) = refl

-- A message that joins the mesh of an interface with the settings s and the index i.
pub record Joins (userspace : Bool) (s : NetInterface) (i : ℕ) (m : Message) : Type 0 where
  pub command : m.command ≡ Command.join_mesh
  pub mesh : IsIn (Attribute.mesh_id s.mesh_id) m.attributes
  pub index : IsIn (Attribute.ifindex i) m.attributes
  pub frequency : IsIn (Attribute.wiphy_freq (to_unsigned 32 s.frequency)) m.attributes
  pub width : IsIn (Attribute.channel_width s.channel_width) m.attributes
  pub center1 : IsIn (Attribute.center_freq1 (to_unsigned 32 s.center_freq1)) m.attributes
  pub center2 : IsIn (Attribute.center_freq2 (to_unsigned 32 s.center_freq2)) m.attributes
  pub params : (ps : List MeshParam) × IsIn (Attribute.mesh_params ps) m.attributes × AreParams s ps
  pub setup :
      (userspace || s.is_encrypted) ≡ true
      → (st : List MeshSetup) × IsIn (Attribute.mesh_setup st) m.attributes
        × IsSetup s.is_encrypted st

module _ {K : Type 0} (d : Driver K) where
  -- The index is what the kernel has given for the name of the interface.
  abbrev pub IsFromKernel : NetInterface → ℕ → Type 0
  IsFromKernel s i =
      (name : Bytes) × (k : K) × (s.maybe_if_name ≡ some name) × (d.link_index name k ≡ some i)

  -- A message has gone out that joins the mesh of an interface with the settings s.
  abbrev pub HasJoin : Bool → NetInterface → List Message → Type 0
  HasJoin u s sent = (i : ℕ) × (m : Message) × IsFromKernel s i × Joins u s i m × Has m sent

  -- The interface under the phy has an index.
  abbrev pub IsIndexed : ℕ → World K → Type 0
  IsIndexed phy w =
      (x : NetInterface)
      → seen with_index phy w ≡ some x
      → (i : ℕ) × (x.maybe_if_index ≡ some i) × IsFromKernel x i

  abbrev pub IsJoined : ℕ → World K → World K → Type 0
  IsJoined phy w w' =
      (s : NetInterface)
      → seen settings phy w ≡ some s
      → HasJoin w.handler.userspace_mesh_peering s w'.sent

  -- The same of an interface that has a name and can mesh.
  abbrev pub IsServed : World K → World K → ℕ → Type 0
  IsServed w w' key =
      (s : NetInterface) (name : Bytes)
      → seen settings key w ≡ some s
      → s.maybe_if_name ≡ some name
      → s.is_mesh_capable ≡ true
      → HasJoin w.handler.userspace_mesh_peering s w'.sent

  pub HasJoin-Follows :
      (u : Bool) (s : NetInterface) (w w' : World K)
      → Follows settings w w'
      → HasJoin u s w.sent
      → HasJoin u s w'.sent
  HasJoin-Follows u s w w' f (i, m, k, j, h) = (i, m, k, j, Follows-Has m w w' f h)

  -- What is served after a mild call was to be served before it.
  pub IsServed-before :
      (w w1 w2 : World K) (key : ℕ) → Follows settings w w1 → IsServed w1 w2 key → IsServed w w2 key
  IsServed-before w w1 w2 key f h s name hs hn hv =
      subst (λ u. HasJoin u s w2.sent) f.userspace (h s name (f.same key ∙ hs) hn hv)

  pub invalid-IsServed :
      (w w' : World K) (key : ℕ) (n : NetInterface)
      → find key w.handler.net_interfaces ≡ some n
      → is_valid n ≡ false
      → IsServed w w' key
  unfolding is_valid
  invalid-IsServed w w' key n e other s name hs hn hv =
      let same : settings n ≡ s = some_injective (ap (seen_in settings) (sym e) ∙ hs) in
      let named : n.maybe_if_name ≡ some name = ap (λ x. x.maybe_if_name) same ∙ hn in
      let capable : n.is_mesh_capable ≡ true = ap (λ x. x.is_mesh_capable) same ∙ hv in
      absurd (ground (arith, other, ap is_some named, capable))

  pub IsIndexed-Follows :
      (phy : ℕ) (w w' : World K) → Follows with_index w w' → IsIndexed phy w → IsIndexed phy w'
  IsIndexed-Follows phy w w' f h x hx = h x (sym (f.same phy) ∙ hx)

module _ {K : Type 0} where
  -- Each interface is under its own phy.
  abbrev pub ByPhy : World K → Type 0
  ByPhy w = (key : ℕ) (s : NetInterface) → seen settings key w ≡ some s → s.phy_index ≡ key

  abbrev pub IfSuccess : (World K → Type 0) → Status → World K → Type 0
  IfSuccess P s w = s ≡ success → P w

  abbrev pub After : (World K → World K → Type 0) → World K → World K → Type 0
  After P w w' = Follows settings w w' × P w w'

  pub catch-IfSuccess :
      (P : World K → Type 0) (x : Result Status × World K)
      → Yields (IfSuccess P) x
      → Yields (IfSuccess P) (caught x.0 Status.netlink_other, x.1)
  catch-IfSuccess P (ok s, w) h = h
  catch-IfSuccess P (throw Exception.runtime_error, w) h = λ e. cc
  catch-IfSuccess P (throw e, w) h = tt

  pub not_success :
      (P : World K → Type 0) (s : Status) (w : World K) → is_success s ≡ false → IfSuccess P s w
  not_success P s w h e =
      let wrong : is_success success ≡ false = subst (λ t. is_success t ≡ false) e h in cc

  pub found-Yields :
      (o : Option NetInterface) (w : World K)
      → Yields (λ n w'. (o ≡ some n) × (w' ≡ w)) (found_or_throw o, w)
  found-Yields none w = tt
  found-Yields (some n) w = (refl, refl)

  -- What keeps the indices keeps the settings.
  pub weaker-Follows : (w w' : World K) → Follows with_index w w' → Follows settings w w'
  weaker-Follows w w' f = record {
    same = λ key.
        seen-weaker (find key w'.handler.net_interfaces)
        ∙ ap (seen_in settings) (f.same key)
        ∙ sym (seen-weaker (find key w.handler.net_interfaces));
    more = f.more;
    longer = f.longer;
    userspace = f.userspace;
  }
