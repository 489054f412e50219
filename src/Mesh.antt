-- ===== src/Mesh.antt =====
-- fbmeshd/802.11s: the handler of the wireless driver. Here are its exceptions, texts and machine
-- integers, and the attributes of the driver's messages.
--
-- A call of the driver returns what its callbacks are given. An attribute that a message does not
-- have is `none`: reading it is a read through a null pointer.
pub mod Csv
pub mod Socket
pub mod Messages
pub mod Handler
pub mod Settings
pub mod Wiphy
pub mod Reported
pub mod Links
pub mod Dumps
pub mod Commands
pub mod Apply
pub mod Places
pub mod Kept
pub mod Claims
pub mod Applied
pub mod Softly
pub mod Answered
pub mod Claimed
pub mod Sae
pub mod Join
pub mod Follows
pub mod Mild
pub mod Served
pub mod Joined
pub mod Joins
pub mod Events
pub mod Callbacks
pub mod Ignored
pub mod Lengths
pub mod Ordered
pub mod Constructed
pub mod Samples
mod Examples
use fbmeshd.Prelude.{
  ℕ, suc, ◌+◌, ◌-◌, ◌%◌, ◌^◌, ◌≡◌, ◌↔◌, refl, ◌⊎◌, inl, inr, Bool, true, false, ◌&&◌, Option, none,
  some, List, [], ◌∷◌, arith, ◌==◌, ltb, if◌then◌else◌, Eq,
}
use fbmeshd.Prelude.Int.{ℤ, pos, negsuc}

-- What ends a call: an exception of the standard library (folly's `OptionalEmptyException` is a
-- `runtime_error`), a failed `CHECK`, a read through a null pointer or past the end of an array, and
-- a wait for a message that never comes. Only the first is caught anywhere.
pub data Exception : Type 0 where
  runtime_error invalid_argument out_of_range check_failed bad_memory blocked : Exception

pub data Result (A : Type 0) : Type 0 where
  ok : A → Result A
  throw : Exception → Result A

infixl 5 ◌>>=◌ ◌>>◌
abbrev pub ◌>>=◌ : {A B : Type 0} → Result A → (A → Result B) → Result B
ok a >>= f = f a
throw e >>= f = throw e

abbrev pub ◌>>◌ : {A B : Type 0} → Result A → Result B → Result B
m >> k = m >>= λ _. k

-- What a result is, if it is a value.
abbrev pub Ensures : {A : Type 0} → (A → Type 0) → Result A → Type 0
Ensures P (ok a) = P a
Ensures P (throw e) = Unit

pub >>=-Ensures :
    {A B : Type 0} (P : A → Type 0) (Q : B → Type 0) (r : Result A) (f : A → Result B)
    → Ensures P r
    → ((a : A) → P a → Ensures Q (f a))
    → Ensures Q (r >>= f)
>>=-Ensures P Q (ok a) f h k = k a h
>>=-Ensures P Q (throw e) f h k = tt

pub Ensures-ok : {A : Type 0} (P : A → Type 0) (r : Result A) (a : A) → Ensures P r → r ≡ ok a → P a
Ensures-ok P r a h e = rw e at h

-- Nothing needs to be known of the first value.
pub >>=-Ensures_any :
    {A B : Type 0} (Q : B → Type 0) (r : Result A) (f : A → Result B)
    → ((a : A) → Ensures Q (f a))
    → Ensures Q (r >>= f)
>>=-Ensures_any Q (ok a) f k = k a
>>=-Ensures_any Q (throw e) f k = tt

-- Nothing is known of a value.
pub any-Ensures : {A : Type 0} (r : Result A) → Ensures (λ _. Unit) r
any-Ensures (ok a) = tt
any-Ensures (throw e) = tt

-- A result that is a value is that value.
pub equal-Ensures : {A : Type 0} (r : Result A) → Ensures (λ a. r ≡ ok a) r
equal-Ensures (ok a) = refl
equal-Ensures (throw e) = tt

pub Result-cases :
    {A : Type 0} (r : Result A) → ((a : A) × (r ≡ ok a)) ⊎ ((e : Exception) × (r ≡ throw e))
Result-cases (ok a) = inl (a, refl)
Result-cases (throw e) = inr (e, refl)

-- A guard that throws when its test holds.
abbrev pub throw_if : Bool → Exception → Result (Unit {0})
throw_if true e = throw e
throw_if false e = ok tt

-- The value of a `folly::Optional`.
abbrev pub value : {A : Type 0} → Option A → Result A
value none = throw Exception.runtime_error
value (some a) = ok a

-- An attribute that is read without a test.
abbrev pub attribute : {A : Type 0} → Option A → Result A
attribute none = throw Exception.bad_memory
attribute (some a) = ok a

-- A value of an `std::string`, of a block of memory, or of a MAC address.
abbrev pub Bytes : Type 0
Bytes = List ℕ

pub bytes_beq : Bytes → Bytes → Bool
bytes_beq [] [] = true
bytes_beq (x ∷ a) (y ∷ b) = x == y && bytes_beq a b
bytes_beq _ _ = false

pub bytes_beq_iff : (a b : Bytes) → (bytes_beq a b ≡ true) ↔ (a ≡ b)
unfolding bytes_beq
bytes_beq_iff (x ∷ a) (y ∷ b) = ground (arith, bytes_beq_iff a b)
bytes_beq_iff [] [] = ground arith
bytes_beq_iff [] (y ∷ b) = ground arith
bytes_beq_iff (x ∷ a) [] = ground arith

instance abbrev pub bytes_eq : Eq Bytes
bytes_eq = record { beq = bytes_beq; beq_iff = bytes_beq_iff }

-- Conversions of an `int` to an unsigned integer of w bits, and back for a signed byte.
abbrev pub to_unsigned : ℕ → ℤ → ℕ
to_unsigned w (pos n) = n % 2 ^ w
to_unsigned w (negsuc n) = 2 ^ w - 1 - n % 2 ^ w

abbrev pub to_signed : ℕ → ℕ → ℤ
to_signed w n = if ltb n (2 ^ (w - 1)) then pos n else negsuc (2 ^ w - 1 - n)

abbrev pub is_null : {A : Type 0} → Option A → Bool
is_null none = true
is_null (some a) = false
