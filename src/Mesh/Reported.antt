-- ===== src/Mesh/Reported.antt =====
-- 802.11s/Nl80211Handler.cpp: what is true of the interfaces that `populateNetifs` makes.
use fbmeshd.Prelude.{
  ℕ, zero, suc, ◌≡◌, refl, true, false, Option, none, some, List, [], ◌∷◌, ◌==◌, if◌then◌else◌,
  length, All, Bool-cases, Option-cases, inl, inr,
}
use fbmeshd.Mesh.{Bytes, Ensures, >>=-Ensures, >>=-Ensures_any, attribute}
use fbmeshd.Mesh.Messages.{BandInfo, FrequencyInfo, Attributes}
use fbmeshd.Mesh.Settings.{Sizes}
use fbmeshd.Mesh.Socket.{receive-Ensures}
use fbmeshd.Mesh.Handler.{Band, NetInterface, Driver, World}
use fbmeshd.Mesh.Wiphy.{
  new_band, new_net_interface, replicate, get_elem?, set, nested, any, iftype_mesh_point, read_ht,
  read_vht, read_rates, with_rates, add_frequencies, add_supported_frequency,
  is_frequency_supported, the_band, parse_band, parse_bands, parse_wiphy_bands, read_iftypes, named,
  current, on_wiphy, populate_netifs, read_frequencies, get_wiphy_message,
}

-- The rates of a band, if there are any, are as many as it says.
abbrev pub HasRates : Option (List ℕ) → ℕ → Type 0
HasRates none n = n ≡ 0
HasRates (some rs) n = length rs ≡ n

abbrev pub IsBand : Band → Type 0
IsBand b = HasRates b.rates b.n_bitrates

-- An interface that no configuration has claimed.
abbrev pub IsFresh : NetInterface → Type 0
IsFresh n = (n.maybe_if_name ≡ none) × (n.maybe_if_index ≡ none) × All IsBand n.bands

All-replicate : (k : ℕ) → All IsBand (replicate k new_band)
All-replicate zero = tt
All-replicate (suc k) = (refl, All-replicate k)

All-set : (bs : List Band) (i : ℕ) (b : Band) → All IsBand bs → IsBand b → All IsBand (set bs i b)
All-set [] i b h hb = tt
All-set (x ∷ bs) zero b h hb = (hb, h.1)
All-set (x ∷ bs) (suc i) b h hb = (h.0, All-set bs i b h.1 hb)

All-get_elem? :
    (bs : List Band) (i : ℕ) → All IsBand bs → Ensures IsBand (the_band (get_elem? bs i))
All-get_elem? [] i h = tt
All-get_elem? (x ∷ bs) zero h = h.0
All-get_elem? (x ∷ bs) (suc i) h = All-get_elem? bs i h.1

read_ht-IsBand :
    (i : BandInfo) (o : Option Bytes) (b : Band) → IsBand b → Ensures IsBand (read_ht i o b)
unfolding read_ht
read_ht-IsBand i none b h = h
read_ht-IsBand i (some mcs) b h = >>=-Ensures_any IsBand (attribute i.ht_capa) _ λ cap.
    >>=-Ensures_any IsBand (attribute i.ht_ampdu_factor) _
      λ factor. >>=-Ensures_any IsBand (attribute i.ht_ampdu_density) _ λ density. h

read_vht-IsBand :
    (i : BandInfo) (o : Option Bytes) (b : Band) → IsBand b → Ensures IsBand (read_vht i o b)
unfolding read_vht
read_vht-IsBand i none b h = h
read_vht-IsBand i (some mcs) b h = >>=-Ensures_any IsBand (attribute i.vht_capa) _ λ cap. h

with_rates-IsBand : (rs : List ℕ) (b : Band) → IsBand b → IsBand (with_rates rs b)
with_rates-IsBand [] b h = h
with_rates-IsBand (r ∷ rs) b h = refl

module _ (sizes : Sizes) where
  add_frequencies-IsFresh :
      (is : List FrequencyInfo) (n : NetInterface) → IsFresh n → IsFresh (add_frequencies is n)
  unfolding add_frequencies
  add_frequencies-IsFresh [] n h = h
  add_frequencies-IsFresh (i ∷ is) n h = elim (Option-cases i.freq) [
    | inl e ↦ rw (e, add_frequencies) (add_frequencies-IsFresh is n h)
    | inr (f, e) ↦
        rw (e, add_frequencies)
          (elim (Bool-cases (is_frequency_supported f n)) [
            | inl old ↦ rw (old, add_supported_frequency) (add_frequencies-IsFresh is n h)
            | inr new ↦
                rw (new, add_supported_frequency)
                  (add_frequencies-IsFresh is (record n { frequencies = f ∷ n.frequencies }) h)
          ])
  ]

  read_frequencies-IsFresh :
      (is : Option (List FrequencyInfo)) (n : NetInterface)
      → IsFresh n
      → Ensures IsFresh (read_frequencies is n)
  read_frequencies-IsFresh none n h = h
  read_frequencies-IsFresh (some is) n h =
      >>=-Ensures_any IsFresh (nested (some is)) _ λ fs. add_frequencies-IsFresh fs n h

  parse_band-IsFresh :
      (i : BandInfo) (n : NetInterface) → IsFresh n → Ensures IsFresh (parse_band sizes i n)
  unfolding parse_band
  parse_band-IsFresh i n h =
      >>=-Ensures IsBand IsFresh (the_band (get_elem? n.bands i.band_type)) _
        (All-get_elem? n.bands i.band_type h.2)
        λ b hb.
          >>=-Ensures IsBand IsFresh (read_ht i i.ht_mcs_set b) _
            (read_ht-IsBand i i.ht_mcs_set b hb)
            λ b1 hb1.
              >>=-Ensures IsBand IsFresh (read_vht i i.vht_mcs_set b1) _
                (read_vht-IsBand i i.vht_mcs_set b1 hb1)
                λ b2 hb2. >>=-Ensures_any IsFresh (nested i.rates) _ λ infos.
                  read_frequencies-IsFresh i.freqs
                    (record n {
                      bands = set n.bands i.band_type (with_rates (read_rates infos) b2);
                    })
                    (
                      h.0,
                      h.1,
                      All-set n.bands i.band_type (with_rates (read_rates infos) b2) h.2
                          (with_rates-IsBand (read_rates infos) b2 hb2),
                    )

  parse_bands-IsFresh :
      (is : List BandInfo) (n : NetInterface) → IsFresh n → Ensures IsFresh (parse_bands sizes is n)
  unfolding parse_bands
  parse_bands-IsFresh [] n h = h
  parse_bands-IsFresh (i ∷ is) n h =
      >>=-Ensures IsFresh IsFresh (parse_band sizes i n) (parse_bands sizes is)
        (parse_band-IsFresh i n h) (λ n' h'. parse_bands-IsFresh is n' h')

  parse_wiphy_bands-IsFresh :
      (is : Option (List BandInfo)) (n : NetInterface)
      → IsFresh n
      → Ensures IsFresh (parse_wiphy_bands sizes is n)
  parse_wiphy_bands-IsFresh none n h = h
  parse_wiphy_bands-IsFresh (some is) n h =
      >>=-Ensures_any IsFresh (nested (some is)) _ λ bs. parse_bands-IsFresh bs n h

  read_iftypes-IsFresh :
      (ts : Option (List ℕ)) (n : NetInterface)
      → IsFresh n
      → Ensures IsFresh (read_iftypes sizes ts n)
  read_iftypes-IsFresh none n h = h
  read_iftypes-IsFresh (some ts) n h = >>=-Ensures_any IsFresh (nested (some ts)) _ λ types.
      elim (any (λ t. t == iftype_mesh_point) types)
        as (λ b. IsFresh (if b then record n { is_mesh_capable = true } else n)) [
          | true ↦ h
          | false ↦ h
        ]

  named-IsFresh :
      (name : Option Bytes) (n : NetInterface) → IsFresh n → Ensures IsFresh (named sizes name n)
  named-IsFresh none n h = tt
  named-IsFresh (some name) n h = h

  abbrev AreReported : NetInterface × List NetInterface → Type 0
  AreReported p = IsFresh p.0 × All IsFresh p.1

  current-AreReported :
      (phy : ℕ) (tb : Attributes) (ns : List NetInterface)
      → All IsFresh ns
      → Ensures AreReported (current sizes phy tb ns)
  unfolding current
  current-AreReported phy tb [] h =
      >>=-Ensures IsFresh AreReported (named sizes tb.wiphy_name (new_net_interface sizes phy)) _
        (named-IsFresh tb.wiphy_name (new_net_interface sizes phy)
          (refl, refl, All-replicate sizes.num_bands))
        λ n hn. (hn, tt)
  current-AreReported phy tb (n ∷ ns) h = elim (Bool-cases (n.phy_index == phy)) [
    | inl same ↦ rw same h
    | inr new ↦ rw new (
        >>=-Ensures IsFresh AreReported (named sizes tb.wiphy_name (new_net_interface sizes phy)) _
          (named-IsFresh tb.wiphy_name (new_net_interface sizes phy)
            (refl, refl, All-replicate sizes.num_bands))
          λ m hm. (hm, h))
  ]

  on_wiphy-All :
      (tb : Attributes) (ns : List NetInterface)
      → All IsFresh ns
      → Ensures (All IsFresh) (on_wiphy sizes tb ns)
  unfolding on_wiphy
  on_wiphy-All tb ns h = >>=-Ensures_any (All IsFresh) (attribute tb.wiphy) _ λ phy.
      >>=-Ensures AreReported (All IsFresh) (current sizes phy tb ns) _
        (current-AreReported phy tb ns h)
        λ p hp.
          >>=-Ensures IsFresh (All IsFresh) (read_iftypes sizes tb.supported_iftypes p.0) _
            (read_iftypes-IsFresh tb.supported_iftypes p.0 hp.0)
            λ n1 h1.
              >>=-Ensures IsFresh (All IsFresh) (parse_wiphy_bands sizes tb.wiphy_bands n1) _
                (parse_wiphy_bands-IsFresh tb.wiphy_bands n1 h1) λ n2 h2. (h2, hp.1)

-- Whatever the driver answers, the interfaces that are read have no name and no index yet, and each
-- band has as many rates as it says.
pub populate_netifs-Ensures :
    {K : Type 0} (sizes : Sizes) (d : Driver K) (w : World K)
    → Ensures (All IsFresh) (populate_netifs sizes d w).0
unfolding populate_netifs
populate_netifs-Ensures sizes d w =
    receive-Ensures (on_wiphy sizes) (All IsFresh) (on_wiphy-All sizes)
      (d.exchange get_wiphy_message w.kernel).0 [] tt
