-- ===== src/Mesh/Handler.antt =====
-- 802.11s/Nl80211Handler.h and 802.11s/NetInterface.h: the state of the handler and of its
-- interfaces, and the calls that it makes to what is not in the repository.
use fbmeshd.Prelude.{ℕ, Bool, Option, List, [], ◌∷◌, ◌++◌, if◌then◌else◌}
use fbmeshd.Prelude.Int.{ℤ}
use fbmeshd.Mesh.{Bytes, Exception, Result, ok, throw, Ensures}
use fbmeshd.Mesh.Messages.{Message, Attributes}
use fbmeshd.Mesh.Socket.{Event, receive}

-- `ieee80211_supported_band`, of authsae. `none` of the rates is the null pointer.
pub record Band : Type 0 where
  pub ht_supported : Bool
  pub ht_mcs : Bytes
  pub ht_cap : ℕ
  pub ampdu_factor : ℕ
  pub ampdu_density : ℕ
  pub vht_supported : Bool
  pub vht_mcs : Bytes
  pub vht_cap : ℕ
  pub rates : Option (List ℕ)
  pub n_bitrates : ℕ

-- `enum` of the bands in `meshd_config`.
pub data MeshdBand : Type 0 where
  meshd_11b meshd_11a meshd_11g : MeshdBand

-- What the library reads or writes of `meshd_config`, of authsae; its other members are constants.
pub record MeshdConfig : Type 0 where
  pub band : MeshdBand
  pub meshid : Bytes
  pub interface : Bytes
  pub is_secure : Bool
  pub control_freq : ℤ
  pub center_freq1 : ℤ
  pub center_freq2 : ℤ
  pub channel_width : ℕ
  pub ht_prot_mode : ℕ
  pub pmf : Bool
  pub mcast_rate : ℕ
  pub max_plinks : ℕ
  pub basic_rates : List ℕ

pub record NetInterface : Type 0 where
  pub maybe_if_name : Option Bytes
  pub maybe_if_index : Option ℕ
  pub phy_name : Bytes
  pub mesh_id : Bytes
  pub frequency : ℤ
  pub center_freq1 : ℤ
  pub center_freq2 : ℤ
  pub channel_width : ℕ
  pub is_mesh_capable : Bool
  pub maybe_mac_address : Option Bytes
  pub is_encrypted : Bool
  pub encryption_password : Bytes
  pub encryption_sae_groups : List ℤ
  pub encryption_debug : ℤ
  pub max_peer_links : ℕ
  pub maybe_rssi_threshold : Option ℤ
  pub ttl : ℕ
  pub element_ttl : ℕ
  pub hwmp_active_path_timeout : ℕ
  pub hwmp_rann_interval : ℕ
  pub phy_index : ℕ
  pub frequencies : List ℕ
  pub band_5ghz : Bool
  pub bands : List Band
  pub conf : MeshdConfig

-- What `globalNlHandler` points at: nothing, this handler, or another one.
pub data Global : Type 0 where
  unset this another : Global

-- `net_interfaces` is the `std::map` from the index of a phy, in its order.
pub record Nl80211Handler : Type 0 where
  pub interface_name : Bytes
  pub net_interfaces : List (ℕ × NetInterface)
  pub multicast_groups : List (Bytes × ℕ)
  pub userspace_mesh_peering : Bool
  pub global_nl_handler : Global

-- The driver and the system behind it, in a state of type K. `exchange` sends a message and gives
-- the batches of its answer; `link_index` and `change_link` are `rtnl_link_get_kernel` with
-- `rtnl_link_get_ifindex`, and `rtnl_link_change` with its result; `set_mtu` runs `/sbin/ip`.
pub record Driver (K : Type 0) : Type 0 where
  pub exchange : Message → K → List (List (Event Attributes)) × K
  pub send_event : Message → K → K
  pub if_nametoindex : Bytes → K → ℕ
  pub set_mtu : Bytes → ℕ → K → K
  pub has_socket : K → Bool
  pub has_request : K → Bool
  pub link_index : Bytes → K → Option ℕ
  pub change_link : Bytes → Bool → K → Bool × K

-- `sent` lists the messages that have gone to the driver; the code keeps no such list.
pub record World (K : Type 0) : Type 0 where
  pub handler : Nl80211Handler
  pub sent : List Message
  pub kernel : K

-- A method of the handler: what was changed before an exception stays changed.
abbrev pub Action : Type 0 → Type 0 → Type 0
Action K A = World K → Result A × World K

-- `catch (std::runtime_error&)`.
abbrev pub caught : {A : Type 0} → Result A → A → Result A
caught (throw Exception.runtime_error) a = ok a
caught r a = r

module _ {K : Type 0} where
  abbrev pub continue : {A B : Type 0} → Result A × World K → (A → Action K B) → Result B × World K
  continue (ok a, w) f = f a w
  continue (throw e, w) f = (throw e, w)

  infixl 5 ◌>>=◌ ◌>>◌
  abbrev pub ◌>>=◌ : {A B : Type 0} → Action K A → (A → Action K B) → Action K B
  ◌>>=◌ m f w = continue (m w) f

  abbrev pub ◌>>◌ : {A B : Type 0} → Action K A → Action K B → Action K B
  m >> k = m >>= λ _. k

  abbrev pub pure : {A : Type 0} → A → Action K A
  pure a w = (ok a, w)

  abbrev pub lift : {A : Type 0} → Result A → Action K A
  lift r w = (r, w)

  abbrev pub gets : {A : Type 0} → (Nl80211Handler → A) → Action K A
  gets f w = (ok (f w.handler), w)

  abbrev pub modify : (Nl80211Handler → Nl80211Handler) → Action K (Unit {0})
  modify f w = (ok tt, record w { handler = f w.handler })

  -- `CHECK`.
  abbrev pub check : Bool → Action K (Unit {0})
  check test w = (if test then ok tt else throw Exception.check_failed, w)

  abbrev pub catch : {A : Type 0} → Action K A → A → Action K A
  catch m a w = let (r, w') = m w in (caught r a, w')

  abbrev pub in_kernel : (K → K) → Action K (Unit {0})
  in_kernel f w = (ok tt, record w { kernel = f w.kernel })

  -- `sendAndReceive`: the callback over the answer, from a local state.
  unfoldable pub send_and_receive :
      Driver K → {S : Type 0} → (Attributes → S → Result S) → Message → S → Action K S
  send_and_receive d callback m s w =
      let (batches, k) = d.exchange m w.kernel in
      (receive callback batches s, record w { kernel = k; sent = w.sent ++ m ∷ [] })

  -- A message on the socket of events.
  abbrev pub send_on_events : Driver K → Message → Action K (Unit {0})
  send_on_events d m w =
      (ok tt, record w { kernel = d.send_event m w.kernel; sent = w.sent ++ m ∷ [] })

  -- With the callback that ignores what it is given.
  unfoldable pub send : Driver K → Message → Action K (Unit {0})
  unfolding send_and_receive
  send d m = send_and_receive d (λ _ s. ok s) m tt

module _ {K : Type 0} where
  -- What is true of the value and of the state when a call ends with a value.
  abbrev pub Yields : {A : Type 0} → (A → World K → Type 0) → Result A × World K → Type 0
  Yields P (ok a, w) = P a w
  Yields P (throw e, w) = Unit

  -- What is true of the handler when a call ends, by an exception too.
  abbrev pub Leaves : {A : Type 0} → (Nl80211Handler → Type 0) → Result A × World K → Type 0
  Leaves P x = P x.1.handler

  pub Yields-map :
      {A : Type 0} (P Q : A → World K → Type 0) (x : Result A × World K)
      → Yields P x
      → ((a : A) (w : World K) → P a w → Q a w)
      → Yields Q x
  Yields-map P Q (ok a, w) h k = k a w h
  Yields-map P Q (throw e, w) h k = tt

  -- From what is known of the state alone.
  pub state-Yields :
      {A : Type 0} (P : World K → Type 0) (r : Result A) (w : World K)
      → P w
      → Yields (λ _ w'. P w') (r, w)
  state-Yields P (ok a) w h = h
  state-Yields P (throw e) w h = tt

  -- From what is known of the value and of the handler apart.
  pub both-Yields :
      {A : Type 0} (P : A → Type 0) (Q : Nl80211Handler → Type 0) (x : Result A × World K)
      → Ensures P x.0
      → Leaves Q x
      → Yields (λ a w. P a × Q w.handler) x
  both-Yields P Q (ok a, w) h l = (h, l)
  both-Yields P Q (throw e, w) h l = tt

  module _ {A B : Type 0} where
    pub continue-Yields :
        (P : A → World K → Type 0) (Q : B → World K → Type 0) (x : Result A × World K)
        (f : A → Action K B)
        → Yields P x
        → ((a : A) (w : World K) → P a w → Yields Q (f a w))
        → Yields Q (continue x f)
    continue-Yields P Q (ok a, w) f h k = k a w h
    continue-Yields P Q (throw e, w) f h k = tt

    pub continue-Leaves :
        (P : Nl80211Handler → Type 0) (x : Result A × World K) (f : A → Action K B)
        → Leaves P x
        → ((a : A) (w : World K) → P w.handler → Leaves P (f a w))
        → Leaves P (continue x f)
    continue-Leaves P (ok a, w) f h k = k a w h
    continue-Leaves P (throw e, w) f h k = h

  module _ {A : Type 0} (P : Nl80211Handler → Type 0) where
    caught-Yields :
        (x : Result A × World K) (a : A)
        → Leaves P x
        → Yields (λ _ w'. P w'.handler) (caught x.0 a, x.1)
    caught-Yields (ok b, w') a h = h
    caught-Yields (throw Exception.runtime_error, w') a h = h
    caught-Yields (throw e, w') a h = tt

    pub catch-Yields :
        (m : Action K A) (a : A) (w : World K)
        → Leaves P (m w)
        → Yields (λ _ w'. P w'.handler) (catch m a w)
    catch-Yields m a w h = caught-Yields (m w) a h
