-- ===== src/Mesh/Settings.antt =====
-- 802.11s/Nl80211Handler.cpp: the flags of the mesh and `validateConfiguration`.
use fbmeshd.Prelude.{
  ℕ, ◌-◌, ◌≤◌, ◌≡◌, refl, ◌↔◌, Bool, true, false, ◌&&◌, ◌||◌, List, [], ◌∷◌, arith, ltb,
  if◌then◌else◌, length,
}
use fbmeshd.Prelude.Int.{ℤ}
use fbmeshd.Mesh.{
  Bytes, bytes_beq, bytes_beq_iff, Exception, Result, ok, throw, ◌>>=◌, ◌>>◌, throw_if,
}
use fbmeshd.Mesh.Csv.{parse_csv_flag}

pub record Flags : Type 0 where
  pub mesh_id : Bytes
  pub channel_type : Bytes
  pub frequency : ℤ
  pub center_freq1 : ℤ
  pub center_freq2 : ℤ
  pub enable_encryption : Bool
  pub encryption_password : Bytes
  pub sae_groups : Bytes
  pub peering_verbosity : ℤ
  pub rssi_threshold : ℤ
  pub mac_address : Bytes
  pub ttl : ℕ
  pub ttl_element : ℕ
  pub max_peer_links : ℕ
  pub hwmp_active_path_timeout : ℕ
  pub hwmp_rann_interval : ℕ
  pub mtu : ℕ
  pub init_peering_allowed_macs : Bytes

-- Constants of authsae's and the kernel's headers.
pub record Sizes : Type 0 where
  pub max_ssid_len : ℕ
  pub ifnamsiz : ℕ
  pub sae_max_password_len : ℕ
  pub sae_max_ec_groups : ℕ
  pub max_supp_rates : ℕ
  pub num_bands : ℕ

abbrev pub type_160 : Bytes
type_160 = b'1' ∷ b'6' ∷ b'0' ∷ []

abbrev pub type_80_80 : Bytes
type_80_80 = b'8' ∷ b'0' ∷ b'+' ∷ b'8' ∷ b'0' ∷ []

abbrev pub type_80 : Bytes
type_80 = b'8' ∷ b'0' ∷ []

abbrev pub type_40 : Bytes
type_40 = b'4' ∷ b'0' ∷ []

abbrev pub type_20 : Bytes
type_20 = b'2' ∷ b'0' ∷ []

abbrev pub type_noht : Bytes
type_noht = b'N' ∷ b'O' ∷ b'H' ∷ b'T' ∷ []

-- The test on the channel type: it wants the type to be all of the six names at once.
unfoldable pub is_every_type : Bytes → Bool
is_every_type t =
    bytes_beq t type_160
    && (bytes_beq t type_80_80
        && (bytes_beq t type_80
            && (bytes_beq t type_40 && (bytes_beq t type_20 && bytes_beq t type_noht))))

-- There are at most as many groups as a limit.
abbrev pub HasFew : ℕ → Result (List ℤ) → Type 0
HasFew n (throw e) = ⊥
HasFew n (ok groups) = length groups ≤ n

few_iff :
    (n : ℕ) (r : Result (List ℤ))
    → ((r >>= λ groups. throw_if (ltb n (length groups)) Exception.invalid_argument) ≡ ok tt)
      ↔ HasFew n r
few_iff n (throw e) = ground arith
few_iff n (ok groups) = ground arith

-- A guard before the rest lets it run exactly if its test fails.
guarded_iff :
    (b : Bool) (e : Exception) (r : Result (Unit {0}))
    → ((throw_if b e >> r) ≡ ok tt) ↔ ((b ≡ false) × (r ≡ ok tt))
guarded_iff true e r = ground arith
guarded_iff false e r = ground arith

module _ (sizes : Sizes) (stoi : Bytes → Result ℤ) where
  unfoldable pub validate_encryption : Flags → Result (Unit {0})
  validate_encryption f = do
    throw_if (ltb (sizes.sae_max_password_len - 1) (length f.encryption_password))
        Exception.invalid_argument
    groups ← parse_csv_flag stoi f.sae_groups
    throw_if (ltb sizes.sae_max_ec_groups (length groups)) Exception.invalid_argument

  unfoldable pub validate_configuration : Bytes → Flags → Result (Unit {0})
  validate_configuration interface_name f = do
    throw_if (ltb sizes.max_ssid_len (length f.mesh_id)) Exception.invalid_argument
    throw_if (ltb sizes.ifnamsiz (length interface_name)) Exception.invalid_argument
    throw_if (is_every_type f.channel_type) Exception.invalid_argument
    throw_if (ltb 255 f.max_peer_links) Exception.invalid_argument
    throw_if (ltb f.ttl 1 || ltb 255 f.ttl) Exception.invalid_argument
    throw_if (ltb f.ttl_element 1 || ltb 255 f.ttl_element) Exception.invalid_argument
    if f.enable_encryption then validate_encryption f else ok tt

  abbrev pub IsEncryptable : Flags → Type 0
  IsEncryptable f =
      (length f.encryption_password ≤ sizes.sae_max_password_len - 1)
      × HasFew sizes.sae_max_ec_groups (parse_csv_flag stoi f.sae_groups)

  abbrev pub IsOfferable : Bool → Flags → Type 0
  IsOfferable true f = IsEncryptable f
  IsOfferable false f = Unit

  abbrev pub IsInRange : ℕ → ℕ → ℕ → Type 0
  IsInRange lo hi n = (lo ≤ n) × (n ≤ hi)

  abbrev pub IsAcceptable : Bytes → Flags → Type 0
  IsAcceptable interface_name f =
      (length f.mesh_id ≤ sizes.max_ssid_len)
      × (length interface_name ≤ sizes.ifnamsiz)
      × (f.max_peer_links ≤ 255)
      × IsInRange 1 255 f.ttl
      × IsInRange 1 255 f.ttl_element
      × IsOfferable f.enable_encryption f

is_every_type_never : (t : Bytes) → is_every_type t ≡ false
unfolding is_every_type
is_every_type_never t = ground (arith, bytes_beq_iff t type_160, bytes_beq_iff t type_80_80)

abbrev after_guards : List Bool → Result (Unit {0}) → Result (Unit {0})
after_guards [] r = r
after_guards (b ∷ bs) r = throw_if b Exception.invalid_argument >> after_guards bs r

abbrev AllFalse : List Bool → Type 0
AllFalse [] = Unit
AllFalse (b ∷ bs) = (b ≡ false) × AllFalse bs

after_guards_iff :
    (bs : List Bool) (r : Result (Unit {0}))
    → (after_guards bs r ≡ ok tt) ↔ (AllFalse bs × (r ≡ ok tt))
after_guards_iff [] r = (λ h. (tt, h), λ h. h.1)
after_guards_iff (b ∷ bs) r =
    let this = guarded_iff b Exception.invalid_argument (after_guards bs r) in
    let rest = after_guards_iff bs r in
    (
      λ h. let both = this.0 h in let more = rest.0 both.1 in ((both.0, more.0), more.1),
      λ h. this.1 (h.0.0, rest.1 (h.0.1, h.1)),
    )

module _ (sizes : Sizes) (stoi : Bytes → Result ℤ) where
  validate_encryption_iff :
      (f : Flags) → (validate_encryption sizes stoi f ≡ ok tt) ↔ IsEncryptable sizes stoi f
  unfolding validate_encryption
  validate_encryption_iff f =
      let groups = parse_csv_flag stoi f.sae_groups in
      let few = few_iff sizes.sae_max_ec_groups groups in
      let test =
        guarded_iff (ltb (sizes.sae_max_password_len - 1) (length f.encryption_password))
          Exception.invalid_argument
          (groups >>= λ gs.
            throw_if (ltb sizes.sae_max_ec_groups (length gs)) Exception.invalid_argument) in
      (
        λ h. let both = test.0 h in ((ground arith), few.0 both.1),
        λ h. test.1 ((ground arith), few.1 h.1),
      )

  last_part_iff :
      (b : Bool) (f : Flags)
      → ((if b then validate_encryption sizes stoi f else ok tt) ≡ ok tt)
        ↔ IsOfferable sizes stoi b f
  last_part_iff true f = validate_encryption_iff f
  last_part_iff false f = (λ h. tt, λ h. refl)

  -- The configuration is accepted exactly when the mesh identifier and the name of the interface
  -- are no longer than their limits, there are at most 255 peers, both times to live are from 1 to
  -- 255, and, with encryption, the password leaves room for its end and the groups can be read and
  -- are not too many. Whatever the channel type is, it is accepted.
  pub validate_configuration_iff :
      (interface_name : Bytes) (f : Flags)
      → (validate_configuration sizes stoi interface_name f ≡ ok tt)
        ↔ IsAcceptable sizes stoi interface_name f
  unfolding validate_configuration
  validate_configuration_iff interface_name f =
      let last = last_part_iff f.enable_encryption f in
      let guards =
        after_guards_iff
          (ltb sizes.max_ssid_len (length f.mesh_id)
            ∷ ltb sizes.ifnamsiz (length interface_name)
            ∷ is_every_type f.channel_type
            ∷ ltb 255 f.max_peer_links
            ∷ (ltb f.ttl 1 || ltb 255 f.ttl)
            ∷ (ltb f.ttl_element 1 || ltb 255 f.ttl_element)
            ∷ [])
          (if f.enable_encryption then validate_encryption sizes stoi f else ok tt) in
      (
        λ h.
            let x = (guards.0 h).0 in
            let a = x.0 in
            let b = x.1.0 in
            let d = x.1.1.1.0 in
            let e = x.1.1.1.1.0 in
            let g = x.1.1.1.1.1.0 in
            (
              (ground arith),
              (ground arith),
              (ground arith),
              (ground arith),
              (ground arith),
              last.0 (guards.0 h).1,
            ),
        λ h. guards.1 (
          (
            (ground arith),
            (
              (ground arith),
              (
                is_every_type_never f.channel_type,
                ((ground arith), ((ground arith), ((ground arith), tt))),
              ),
            ),
          ),
          last.1 h.5,
        ),
      )
