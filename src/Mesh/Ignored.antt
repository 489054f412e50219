-- ===== src/Mesh/Ignored.antt =====
-- 802.11s/Nl80211Handler.cpp and 802.11s/AuthsaeCallbackHelpers.cpp: the events and calls that are to
-- have no effect.
use fbmeshd.Prelude.{
  ◌⊎◌, ◌≢◌, List, Option, ◌≡◌, refl, sym, subst, inl, inr, true, false, none, some, [], ◌∷◌, arith,
  if◌then◌else◌, nat_eq, Bool-cases,
}
use fbmeshd.Prelude.Int.{leb_ℤ}
use fbmeshd.Mesh.{Bytes, ok}
use fbmeshd.Mesh.Csv.{parse_csv_flag}
use fbmeshd.Mesh.Messages.{Attributes}
use fbmeshd.Mesh.Settings.{Flags}
use fbmeshd.Mesh.Handler.{NetInterface, Driver, World, Action, pure}
use fbmeshd.Mesh.Links.{Status}
use fbmeshd.Mesh.Apply.{Parsers}
use fbmeshd.Mesh.Events.{
  FrameApi, InfoElems, PeerApi, frame_received, is_for_authsae, admit_candidate, process_event,
  rssi_of, on_frame, is_known_phy,
}

-- The list of stations to peer with is empty, or has the station.
abbrev Lists : Bytes → List Bytes → Type 0
Lists mac [] = ⊥
Lists mac (a ∷ allowed) = (a ≡ mac) ⊎ Lists mac allowed

abbrev pub IsListed : Parsers → Bytes → Bytes → Type 0
IsListed p text mac =
    (text ≡ [])
    ⊎ ((allowed : List Bytes) × (parse_csv_flag p.mac_from_string text ≡ ok allowed)
        × Lists mac allowed)

-- Why a candidate is turned away, with the status of it, or welcome.
pub data Judged (p : Parsers) (f : Flags) (n : NetInterface) (mac : Bytes) (elems : InfoElems)
    : Option Status → Type 0 where
  other_mesh :
      elems.elem_mesh_id ≢ some n.conf.meshid → Judged p f n mac elems (some Status.success)
  not_secure :
      elems.elem_mesh_id ≡ some n.conf.meshid
      → elems.rsn ≡ none
      → n.conf.is_secure ≡ true
      → Judged p f n mac elems (some Status.invalid_argument_value)
  not_listed :
      (allowed : List Bytes)
      → elems.elem_mesh_id ≡ some n.conf.meshid
      → f.init_peering_allowed_macs ≢ []
      → parse_csv_flag p.mac_from_string f.init_peering_allowed_macs ≡ ok allowed
      → ¬ Lists mac allowed
      → Judged p f n mac elems (some Status.invalid_argument_value)
  welcome :
      elems.elem_mesh_id ≡ some n.conf.meshid
      → (elems.rsn ≢ none) ⊎ (n.conf.is_secure ≡ false)
      → IsListed p f.init_peering_allowed_macs mac
      → Judged p f n mac elems none

module _ {K : Type 0} (d : Driver K) (frames : FrameApi) (peers : PeerApi K) where
  abbrev pub given : Option Status → NetInterface → Bytes → InfoElems → Action K Status
  given none n mac elems = admit_candidate d frames peers n mac elems
  given (some s) n mac elems = pure s

  not_for_authsae :
      (f : Flags) (tb : Attributes) (frame : Bytes)
      → leb_ℤ f.rssi_threshold (rssi_of tb.rx_signal_dbm) ≡ false
      → frames.is_close frame ≡ false
      → is_for_authsae d frames peers f tb frame ≡ false
  unfolding is_for_authsae
  not_for_authsae f tb frame weak close = rw weak (rw close (ground arith))

  on_weak_frame :
      (f : Flags) (tb : Attributes) (frame : Bytes) (w : World K)
      → leb_ℤ f.rssi_threshold (rssi_of tb.rx_signal_dbm) ≡ false
      → frames.is_close frame ≡ false
      → on_frame d frames peers f tb (some frame) w ≡ (ok tt, w)
  on_weak_frame f tb [] w weak close = refl
  on_weak_frame f tb (c ∷ s) w weak close = rw (not_for_authsae f tb (c ∷ s) weak close)

  -- A frame below the threshold is not passed on to authsae unless it closes a link: the event
  -- changes nothing, whatever else it has.
  pub weak_frame :
      (p : Parsers) (f : Flags) (tb : Attributes) (frame : Bytes) (w : World K)
      → tb.frame ≡ some frame
      → leb_ℤ f.rssi_threshold (rssi_of tb.rx_signal_dbm) ≡ false
      → frames.is_close frame ≡ false
      → process_event d frames peers p f frame_received tb w ≡ (ok tt, w)
  unfolding process_event
  weak_frame p f tb frame w hf weak close =
      subst
        (λ o.
          (if is_known_phy tb.wiphy w.handler then on_frame d frames peers f tb o else pure tt) w
          ≡ (ok tt, w))
        (sym hf)
        (elim (Bool-cases (is_known_phy tb.wiphy w.handler)) [
          | inl known ↦ rw known (on_weak_frame f tb frame w weak close)
          | inr unknown ↦ rw unknown
        ])
