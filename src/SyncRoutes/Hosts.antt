-- ===== src/SyncRoutes/Hosts.antt =====
-- routing/SyncRoutes80211s.cpp: the addresses of two nodes never meet.
use Prim.Native.Nat.{bit_xor}
use fbmeshd.Prelude.{
  ℕ, zero, suc, ◌<◌, ◌≡◌, ◌≢◌, refl, sym, ap, ◌∙◌, Bool, true, ◌&&◌, List, [], ◌∷◌, ◌++◌, arith,
  ◌==◌, nat_eq, All, length, ltb, ◌^◌,
}
use fbmeshd.Rnl.{prefix_eq}
use fbmeshd.SyncRoutes.{
  Bytes6, AddrApi, Config, interface_id, tayga_prefix, mesh_prefix, tayga_host, mesh_host,
}

abbrev pub IsByte : ℕ → Type 0
IsByte b = b < 256

-- The bytes of an IPv6 address.
abbrev pub IsAddr : List ℕ → Type 0
IsAddr xs = (length xs ≡ 16) × All IsByte xs

abbrev pub IsMac : ℕ → Type 0
IsMac m = m < 2 ^ 48

-- What folly's addresses are taken to be: sequences of bytes.
pub record IsBytes (api : AddrApi) : Type 0 where
  pub bytes_injective : (m n : ℕ) → IsMac m → IsMac n → api.bytes m ≡ api.bytes n → m ≡ n
  pub bytes_bound :
      (m : ℕ)
      → let b = api.bytes m in
        IsByte b.b0 × IsByte b.b1 × IsByte b.b2 × IsByte b.b3 × IsByte b.b4 × IsByte b.b5
  pub from_binary_injective :
      (xs ys : List ℕ) → IsAddr xs → IsAddr ys → api.from_binary xs ≡ api.from_binary ys → xs ≡ ys

flips_back : ℕ → Bool
flips_back zero = true
flips_back (suc n) = (bit_xor (bit_xor n 2) 2 == n && ltb (bit_xor n 2) 256) && flips_back n

flips_back-lt :
    (n x : ℕ) → flips_back n ≡ true → x < n → (bit_xor (bit_xor x 2) 2 ≡ x) × (bit_xor x 2 < 256)
unfolding flips_back
flips_back-lt zero x h lt = absurd (omega arith)
flips_back-lt (suc n) x h lt = ground (arith, flips_back-lt n x)

flip_twice : (x : ℕ) → x < 256 → (bit_xor (bit_xor x 2) 2 ≡ x) × (bit_xor x 2 < 256)
unfolding flips_back
flip_twice x h = flips_back-lt 256 x refl h

flip_injective : (x y : ℕ) → x < 256 → y < 256 → bit_xor x 2 ≡ bit_xor y 2 → x ≡ y
flip_injective x y hx hy e = sym (flip_twice x hx).0 ∙ ap (λ z. bit_xor z 2) e ∙ (flip_twice y hy).0

abbrev head : ℕ → List ℕ → ℕ
head d [] = d
head d (x ∷ xs) = x

abbrev tail : List ℕ → List ℕ
tail [] = []
tail (x ∷ xs) = xs

interface_id_injective :
    (m n : Bytes6) → m.b0 < 256 → n.b0 < 256 → interface_id m ≡ interface_id n → m ≡ n
interface_id_injective m n hm hn e =
    let t = λ (f : List ℕ → ℕ). ap f e in
    let e0 = flip_injective m.b0 n.b0 hm hn (t (λ l. head 0 l)) in
    let e1 : m.b1 ≡ n.b1 = t (λ l. head 0 (tail l)) in
    let e2 : m.b2 ≡ n.b2 = t (λ l. head 0 (tail (tail l))) in
    let e3 : m.b3 ≡ n.b3 = t (λ l. head 0 (tail (tail (tail (tail (tail l)))))) in
    let e4 : m.b4 ≡ n.b4 = t (λ l. head 0 (tail (tail (tail (tail (tail (tail l))))))) in
    let e5 : m.b5 ≡ n.b5 = t (λ l. head 0 (tail (tail (tail (tail (tail (tail (tail l)))))))) in
    cc (e0, e1, e2, e3, e4, e5)

module _ (c : Config) (folly : IsBytes c.api) where
  interface_id_bytes : (m : ℕ) → All IsByte (interface_id (c.api.bytes m))
  interface_id_bytes m =
      let (p0, p1, p2, p3, p4, p5) = folly.bytes_bound m in
      ((flip_twice _ p0).1, (p1, (p2, (omega arith, (omega arith, (p3, (p4, (p5, tt))))))))

  mesh-IsAddr : (m : ℕ) → IsAddr (mesh_prefix ++ interface_id (c.api.bytes m))
  mesh-IsAddr m = (
    refl,
    (
      omega arith,
      (
        omega arith,
        (
          omega arith,
          (
            omega arith,
            (omega arith, (omega arith, (omega arith, (omega arith, interface_id_bytes m)))),
          ),
        ),
      ),
    ),
  )

  tayga-IsAddr : (m : ℕ) → IsAddr (tayga_prefix ++ interface_id (c.api.bytes m))
  tayga-IsAddr m = (
    refl,
    (
      omega arith,
      (
        omega arith,
        (
          omega arith,
          (
            omega arith,
            (omega arith, (omega arith, (omega arith, (omega arith, interface_id_bytes m)))),
          ),
        ),
      ),
    ),
  )

  -- Two nodes never share a mesh address.
  pub mesh_host_injective : (m n : ℕ) → IsMac m → IsMac n → mesh_host c m ≡ mesh_host c n → m ≡ n
  unfolding mesh_host
  mesh_host_injective m n hm hn e =
      let same =
        folly.from_binary_injective _ _ (mesh-IsAddr m) (mesh-IsAddr n) (ap (λ p. p.addr) e) in
      let ids : interface_id (c.api.bytes m) ≡ interface_id (c.api.bytes n) =
        ap (λ l. tail (tail (tail (tail (tail (tail (tail (tail l)))))))) same in
      folly.bytes_injective m n hm hn (
        interface_id_injective (c.api.bytes m) (c.api.bytes n) (folly.bytes_bound m).0
          (folly.bytes_bound n).0 ids)

  pub tayga_host-mesh_host : (m n : ℕ) → tayga_host c m ≢ mesh_host c n
  unfolding tayga_host mesh_host
  tayga_host-mesh_host m n e =
      let same =
        folly.from_binary_injective _ _ (tayga-IsAddr m) (mesh-IsAddr n) (ap (λ p. p.addr) e) in
      let first : ◌≡◌ {A = ℕ} 0xfd 0xfc = ap (λ l. head 0 l) same in absurd (omega (arith, first))
