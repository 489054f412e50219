-- ===== src/Netlink/Labels.antt =====
-- rnl/NetlinkRoute.cpp: labels, written and read.
use Prim.Native.Nat.{bit_or, digits, bit_or-bitwise, max}
use fbmeshd.Prelude.{
  ℕ, zero, suc, ◌+◌, ◌*◌, ◌/◌, ◌%◌, ◌^◌, ◌≤◌, ◌<◌, ◌≡◌, refl, sym, ap, ◌∙◌, Bool, arith, ltb,
  if◌then◌else◌, Bool-cases, inl, inr,
}
use fbmeshd.Netlink.Attributes.{Wire}
use fbmeshd.Netlink.NextHops.{encode_label, decode_label}

-- The lowest digit of an inclusive or.
abbrev or_digits : ℕ → ℕ → ℕ → ℕ
or_digits n a b = digits (λ d. d) max n a b

or_digits_fuel : (n m a b : ℕ) → a ≤ n → a ≤ m → or_digits n a b ≡ or_digits m a b
or_digits_fuel zero zero a b p q = refl
or_digits_fuel zero (suc m) zero b p q = refl
or_digits_fuel zero (suc m) (suc a) b p q = absurd (omega (arith, p))
or_digits_fuel (suc n) zero zero b p q = refl
or_digits_fuel (suc n) zero (suc a) b p q = absurd (omega (arith, q))
or_digits_fuel (suc n) (suc m) zero b p q = refl
or_digits_fuel (suc n) (suc m) (suc a) b p q =
    let half = or_digits_fuel n m (suc a / 2) (b / 2) (omega (arith, p)) (omega (arith, q)) in
    ap (λ k. k * 2 + max (suc a % 2) (b % 2)) half

zero-bit_or : (b : ℕ) → bit_or 0 b ≡ b
zero-bit_or b = bit_or-bitwise 0 b

max-zero : (a : ℕ) → max 0 a ≡ a
max-zero a = omega arith

bit_or_step : (a b : ℕ) → bit_or a b ≡ bit_or (a / 2) (b / 2) * 2 + max (a % 2) (b % 2)
bit_or_step zero b = omega (arith, zero-bit_or b, zero-bit_or (b / 2))
bit_or_step (suc a) b =
    let half = suc a / 2 in
    (bit_or-bitwise (suc a) b)
    ∙ ap (λ k. k * 2 + max (suc a % 2) (b % 2))
        (or_digits_fuel a half half (b / 2) (omega arith) (omega arith)
          ∙ sym (bit_or-bitwise half (b / 2)))

bit_or-zero : (n a : ℕ) → a ≤ n → bit_or a 0 ≡ a
bit_or-zero n zero h = refl
bit_or-zero zero (suc a) h = absurd (omega (arith, h))
bit_or-zero (suc n) (suc a) h =
    omega (arith, bit_or_step (suc a) 0, bit_or-zero n (suc a / 2) (omega (arith, h)))

double-bit_or : (a b : ℕ) → bit_or (a * 2) (b * 2) ≡ bit_or a b * 2
double-bit_or a b =
    let half_a : a * 2 / 2 ≡ a = omega arith in
    let half_b : b * 2 / 2 ≡ b = omega arith in
    let digits_or : bit_or (a * 2 / 2) (b * 2 / 2) ≡ bit_or a b = rw (half_a, half_b) refl in
    omega (arith, bit_or_step (a * 2) (b * 2), digits_or)

bit_or-one : (a : ℕ) → bit_or (a * 2) 1 ≡ a * 2 + 1
bit_or-one a =
    let half : a * 2 / 2 ≡ a = omega arith in
    let rest : bit_or (a * 2 / 2) 0 ≡ a = rw half (bit_or-zero a a (omega arith)) in
    omega (arith, bit_or_step (a * 2) 1, rest)

twice : ℕ → ℕ → ℕ
twice zero a = a
twice (suc n) a = twice n a * 2

bit_or-twice : (n a b : ℕ) → bit_or (twice n a) (twice n b) ≡ twice n (bit_or a b)
unfolding twice
bit_or-twice zero a b = refl
bit_or-twice (suc n) a b =
    double-bit_or (twice n a) (twice n b) ∙ ap (λ k. k * 2) (bit_or-twice n a b)

-- The entry of a label: the label above the bit of the bottom of stack.
entry_lem : (l : ℕ) → bit_or (l * 2 ^ 12) (2 ^ 8) ≡ l * 2 ^ 12 + 2 ^ 8
unfolding twice
entry_lem l =
    ap (λ x. bit_or x 256) (omega arith)
    ∙ bit_or-twice 8 (l * 8 * 2) 1
    ∙ ap (twice 8) (bit_or-one (l * 8))
    ∙ omega arith

-- The byte order of the network: what is written is read back, and an or goes through it.
pub record IsByteOrder (w : Wire) : Type 0 where
  pub reads_back : (n : ℕ) → n < 2 ^ 32 → w.ntohl (w.htonl n) ≡ n
  pub ors : (a b : ℕ) → bit_or (w.htonl a) (w.htonl b) ≡ w.htonl (bit_or a b)

-- A label of at most 20 bits is read back from its entry, whether or not it is at the bottom of the
-- stack, and one of more bits is read back as 0. It holds if the byte order is read back.
pub decode_label-encode_label :
    (w : Wire) (order : IsByteOrder w) (label : ℕ) (bos : Bool)
    → decode_label w (encode_label w label bos) ≡ (if ltb 0xfffff label then 0 else label)
unfolding encode_label
decode_label-encode_label w order label bos =
    let valid = if ltb 0xfffff label then 0 else label in
    let small : valid ≤ 0xfffff = ground arith in
    let shifted = ap (λ n. n / 2 ^ 12) (order.reads_back (valid * 2 ^ 12) (omega (arith, small))) in
    let entry = entry_lem valid in
    let bottom =
      ap (λ n. w.ntohl n / 2 ^ 12) (order.ors (valid * 2 ^ 12) (2 ^ 8) ∙ ap w.htonl entry)
      ∙ ap (λ n. n / 2 ^ 12) (order.reads_back (valid * 2 ^ 12 + 2 ^ 8) (omega (arith, small))) in
    elim (Bool-cases bos) [
      | inl e ↦ rw e (bottom ∙ omega arith)
      | inr e ↦ rw e (shifted ∙ omega arith)
    ]
