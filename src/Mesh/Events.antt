-- ===== src/Mesh/Events.antt =====
-- 802.11s/Nl80211Handler.cpp: `processEvent`, with new candidates for peers, frames and deleted
-- peers. What authsae does with a frame is a parameter: it may call the handler again.
use fbmeshd.Prelude.{
  ℕ, Bool, true, false, not, Option, none, some, List, [], ◌∷◌, ◌++◌, ◌==◌, ◌&&◌, ◌||◌, leb,
  if◌then◌else◌, length, nat_eq,
}
use fbmeshd.Prelude.Int.{ℤ, leb_ℤ}
use fbmeshd.Prelude.Dict.{contains}
use fbmeshd.Mesh.{
  Bytes, bytes_beq, Exception, Result, ok, throw, value, attribute, is_null, to_signed,
}
use fbmeshd.Mesh.Csv.{parse_csv_flag}
use fbmeshd.Mesh.Messages.{Attribute, Attributes, Command}
use fbmeshd.Mesh.Settings.{Flags}
use fbmeshd.Mesh.Handler.{
  NetInterface, Nl80211Handler, Global, Driver, Action, ◌>>=◌, ◌>>◌, pure, lift, gets, send,
}
use fbmeshd.Mesh.Wiphy.{any}
use fbmeshd.Mesh.Links.{Status, checked_index, mesh_netif, netif_from_phy, request}
use fbmeshd.Mesh.Commands.{unauthenticated_mask, wme_flag}
use fbmeshd.Mesh.Apply.{Parsers}

-- What `parse_ies` finds. `none` is a null pointer.
pub record InfoElems : Type 0 where
  pub elem_mesh_id : Option Bytes
  pub rsn : Option Bytes
  pub sup_rates : Option Bytes
  pub ht_cap : Option Bytes
  pub ht_info : Option Bytes
  pub vht_cap : Option Bytes

-- A peer of authsae's. `has_conf` and `is_secure` are of the mesh that it is configured for.
pub record Candidate : Type 0 where
  pub in_kernel : Bool
  pub association_id : ℕ
  pub has_conf : Bool
  pub is_secure : Bool
  pub elems : InfoElems

-- Frames as authsae's headers lay them out.
pub record FrameApi : Type 0 where
  pub is_management : Bytes → Bool
  pub is_action_or_auth : Bytes → Bool
  pub is_close : Bytes → Bool
  pub destination : Bytes → Bytes
  pub header_size : ℕ
  pub beacon_from : Bytes → Bytes
  pub parse_ies : Bytes → InfoElems
  -- Whether the HT operation is not of any channel width, and the HT capabilities without 40 MHz.
  pub is_20mhz : Bytes → Bool
  pub without_40mhz : Bytes → Bytes

-- authsae's peers, in the state of the kernel. The Boolean of `process_mgmt_frame` is whether the
-- mesh is open, and its result whether it succeeds.
pub record PeerApi (K : Type 0) : Type 0 where
  pub find_peer : Bytes → Bool → K → Option Candidate
  pub process_mgmt_frame : Bytes → Bytes → Bool → Action K Bool
  pub set_peer_ies : Bytes → InfoElems → K → K
  pub mark_in_kernel : Bytes → K → K
  pub close_peer_link : Bytes → Action K (Unit {0})
  pub delete_peer : Bytes → K → K
  pub open_peer_link : Bytes → Action K (Unit {0})

abbrev pub attribute_of : (Bytes → Attribute) → Option Bytes → List Attribute
attribute_of f none = []
attribute_of f (some b) = f b ∷ []

-- `globalNlHandler->` where it is this handler.
abbrev pub through_global : Global → Result (Unit {0})
through_global Global.this = ok tt
through_global _ = throw Exception.bad_memory

abbrev pub is_mesh_id : Bytes → Option Bytes → Bool
is_mesh_id ours none = false
is_mesh_id ours (some theirs) = bytes_beq theirs ours

-- Whether the flags allow to begin peering with a station.
unfoldable pub is_allowed : Parsers → Bytes → Bytes → Result Bool
is_allowed p [] mac = ok true
is_allowed p (c ∷ s) mac = elim (parse_csv_flag p.mac_from_string (c ∷ s)) [
  | ok allowed ↦ ok (any (λ a. bytes_beq a mac) allowed)
  | throw e ↦ throw e
]

abbrev pub rssi_of : Option ℕ → ℤ
rssi_of none = ℤ.pos 0
rssi_of (some raw) = to_signed 32 raw

-- The commands of events that are handled; the status of a frame that was sent is only logged.
pub data EventKind : Type 0 where
  new_peer_candidate frame_received deleted_station other_event : EventKind

abbrev pub is_known_phy : Option ℕ → Nl80211Handler → Bool
is_known_phy none h = true
is_known_phy (some phy) h = contains phy h.net_interfaces

module _ {K : Type 0} (d : Driver K) (frames : FrameApi) (peers : PeerApi K) where
  abbrev pub find_peer_action : Bytes → Bool → Action K (Option Candidate)
  find_peer_action mac accepted w = (ok (peers.find_peer mac accepted w.kernel), w)

  abbrev pub in_peers : (K → K) → Action K (Unit {0})
  in_peers f w = (ok tt, record w { kernel = f w.kernel })

  -- The HT capabilities are changed if the HT operation says so, whether or not they are there.
  abbrev pub narrowed : Option Bytes → Option Bytes → Result (Option Bytes)
  narrowed none cap = ok cap
  narrowed (some info) none = if frames.is_20mhz info then throw Exception.bad_memory else ok none
  narrowed (some info) (some cap) =
      ok (some (if frames.is_20mhz info then frames.without_40mhz cap else cap))

  unfoldable pub create_unauthenticated_station :
      NetInterface → Bytes → InfoElems → Action K (Unit {0})
  create_unauthenticated_station n peer elems = do
    i ← checked_index n
    found ← find_peer_action peer false
    candidate ← lift (attribute found)
    cap ← lift (narrowed elems.ht_info elems.ht_cap)
    send d (
        request Command.new_station (
          Attribute.ifindex i
          ∷ Attribute.mac peer
          ∷ (attribute_of Attribute.supported_rates elems.sup_rates
              ++ (Attribute.sta_flags2 unauthenticated_mask wme_flag
                  ∷ Attribute.aid candidate.association_id
                  ∷ Attribute.listen_interval 100
                  ∷ (attribute_of Attribute.ht_capability cap
                      ++ attribute_of Attribute.vht_capability elems.vht_cap)))))

  abbrev pub add_to_kernel :
      NetInterface → Bytes → InfoElems → Option Candidate → Action K (Unit {0})
  add_to_kernel n mac elems none = pure tt
  add_to_kernel n mac elems (some c) = do
    in_peers (peers.set_peer_ies mac elems)
    if c.in_kernel
        then pure tt
        else (create_unauthenticated_station n mac elems >> in_peers (peers.mark_in_kernel mac))

  unfoldable pub admit_candidate : NetInterface → Bytes → InfoElems → Action K Status
  admit_candidate n mac elems = do
    own ← lift (value n.maybe_mac_address)
    done ← peers.process_mgmt_frame (frames.beacon_from mac) own (not n.is_encrypted)
    if done
        then (find_peer_action mac false >>= λ found.
            add_to_kernel n mac elems found >> pure Status.success)
        else pure Status.authsae

  -- A candidate whose elements are known.
  unfoldable pub judge_candidate :
      Parsers → Flags → NetInterface → Bytes → InfoElems → Action K Status
  judge_candidate p f n mac elems =
      let admitted = admit_candidate n mac elems in
      let allowed = lift (is_allowed p f.init_peering_allowed_macs mac) >>= λ yes'.
      if yes' then admitted else pure Status.invalid_argument_value in
      if not (is_mesh_id n.conf.meshid elems.elem_mesh_id)
      then pure Status.success
      else if is_null elems.rsn && n.conf.is_secure
      then pure Status.invalid_argument_value
      else allowed

  abbrev pub candidate_from :
      Parsers → Flags → Attributes → Option Bytes → Option Bytes → Action K Status
  candidate_from p f tb (some mac) (some ie) = do
    phy ← lift (attribute tb.wiphy)
    global ← gets (λ h. h.global_nl_handler)
    lift (through_global global)
    n ← netif_from_phy phy
    judge_candidate p f n mac (frames.parse_ies ie)
  candidate_from p f tb _ _ = pure Status.invalid_argument_value

  unfoldable pub handle_new_candidate : Parsers → Flags → Attributes → Action K Status
  handle_new_candidate p f tb = candidate_from p f tb tb.mac tb.ie

  abbrev pub close_peer : Bytes → Option Candidate → Action K Status
  close_peer mac none = pure Status.success
  close_peer mac (some c) =
      peers.close_peer_link mac >> (in_peers (peers.delete_peer mac) >> pure Status.success)

  abbrev pub deleted_mac : Option Bytes → Action K Status
  deleted_mac none = pure Status.netlink_other
  deleted_mac (some mac) =
      let close = find_peer_action mac false >>= λ found. close_peer mac found in
      if length mac == 6 then close else pure Status.netlink_other

  abbrev pub deleted_on : Attributes → Option ℕ → Action K Status
  deleted_on tb none = pure Status.ifindex_not_found
  deleted_on tb (some i) = lift (attribute tb.ifindex) >>= λ j.
      if j == i then deleted_mac tb.mac else pure Status.ifindex_not_found

  unfoldable pub handle_deleted_peer : Attributes → Action K Status
  handle_deleted_peer tb = do n ← mesh_netif; deleted_on tb n.maybe_if_index

  -- Whether a frame is for authsae: no weak one is, except to close a link.
  unfoldable pub is_for_authsae : Flags → Attributes → Bytes → Bool
  is_for_authsae f tb frame =
      frames.is_management frame
      && (frames.is_action_or_auth frame
          && (leb_ℤ f.rssi_threshold (rssi_of tb.rx_signal_dbm)
              || (leb frames.header_size (length frame) && frames.is_close frame)))

  abbrev pub on_frame : Flags → Attributes → Option Bytes → Action K (Unit {0})
  on_frame f tb none = pure tt
  on_frame f tb (some []) = pure tt
  on_frame f tb (some (c ∷ s)) =
      let process = mesh_netif >>= λ n.
      peers.process_mgmt_frame (c ∷ s) (frames.destination (c ∷ s)) (not n.conf.is_secure) >>= λ _.
      pure tt in
      if is_for_authsae f tb (c ∷ s) then process else pure tt

  abbrev pub dispatch : Parsers → Flags → EventKind → Attributes → Action K (Unit {0})
  dispatch p f new_peer_candidate tb = handle_new_candidate p f tb >>= λ _. pure tt
  dispatch p f frame_received tb = on_frame f tb tb.frame
  dispatch p f deleted_station tb = handle_deleted_peer tb >>= λ _. pure tt
  dispatch p f other_event tb = pure tt

  unfoldable pub process_event : Parsers → Flags → EventKind → Attributes → Action K (Unit {0})
  process_event p f kind tb =
      gets (is_known_phy tb.wiphy) >>= λ known. if known then dispatch p f kind tb else pure tt
