-- ===== src/Netlink/Calls.antt =====
-- rnl/NetlinkMessage.cpp: the calls that add and delete routes, from the message to the answer.
--
-- `answer` is what the future of a message has when the wait for it ends. `none` is an exception.
use fbmeshd.Prelude.{
  ◌⊎◌, ◌+◌, ℕ, ◌≡◌, ◌↔◌, inl, inr, refl, true, false, Option, none, some, List, [], ◌∷◌, map, arith,
  ◌==◌, if◌then◌else◌, All, Bool-cases,
}
use fbmeshd.Rnl.{Route}
use fbmeshd.Rnl.Kernel.{Rtnl}
use fbmeshd.Netlink.{Answer, status, broken}
use fbmeshd.Prelude.Int.{ℤ, pos, negsuc}
use fbmeshd.Netlink.Receive.{Errno, abs}
use fbmeshd.Netlink.Requests.{
  ResultCode, success, is_success, all_ready, is_failure, holds, collect, get_return_status,
}
use fbmeshd.Netlink.Attributes.{Wire}
use fbmeshd.Netlink.NextHops.{Made}
use fbmeshd.Netlink.RouteMessage.{
  Message, add_route, delete_route, add_label_route, delete_label_route,
}

module _ (w : Wire) (c : Rtnl) (e : Errno) (new_message : Message)
    (answer : Message → Option Answer) where
  abbrev pub add_errors : List ℕ
  add_errors = e.eexist ∷ []

  abbrev pub delete_errors : List ℕ
  delete_errors = e.eexist ∷ e.esrch ∷ e.einval ∷ []

  -- The call for one route.
  abbrev pub call : List ℕ → Made Message → Option ResultCode
  call ignored none = none
  call ignored (some (result, m)) =
      if is_success result then get_return_status ignored (answer m ∷ []) else some result

  unfoldable pub call_add_route : Route → Option ResultCode
  unfolding get_return_status add_route
  call_add_route r = call add_errors (add_route w c r new_message)

  unfoldable pub call_delete_route : Route → Option ResultCode
  unfolding get_return_status delete_route
  call_delete_route r = call delete_errors (delete_route w c r new_message)

  unfoldable pub call_add_label_route : Route → Option ResultCode
  unfolding get_return_status add_label_route
  call_add_label_route r = call add_errors (add_label_route w c r new_message)

  unfoldable pub call_delete_label_route : Route → Option ResultCode
  unfolding get_return_status delete_label_route
  call_delete_label_route r = call delete_errors (delete_label_route w c r new_message)

  -- One more message; one that could not be made is left out.
  abbrev pub with_message : Made Message → Option (List Message) → Option (List Message)
  with_message none rest = none
  with_message (some (result, m)) none = none
  with_message (some (result, m)) (some ms) = some (if is_success result then m ∷ ms else ms)

  unfoldable pub make_all : (Route → Made Message) → List Route → Option (List Message)
  make_all make [] = some []
  make_all make (r ∷ routes) = with_message (make r) (make_all make routes)

  abbrev pub call_all : List ℕ → Option (List Message) → Option ResultCode
  call_all ignored none = none
  call_all ignored (some ms) = get_return_status ignored (map answer ms)

  abbrev pub to_add : Route → Made Message
  to_add r =
      if r.family == c.af_mpls
      then add_label_route w c r new_message
      else add_route w c r new_message

  abbrev pub to_delete : Route → Made Message
  to_delete r =
      if r.family == c.af_mpls
      then delete_label_route w c r new_message
      else delete_route w c r new_message

  unfoldable pub add_routes : List Route → Option ResultCode
  unfolding make_all get_return_status
  add_routes routes = call_all add_errors (make_all to_add routes)

  unfoldable pub delete_routes : List Route → Option ResultCode
  unfolding make_all get_return_status
  delete_routes routes = call_all delete_errors (make_all to_delete routes)

-- The status is one of the errors of a list, with either sign.
abbrev pub IsIgnored : List ℕ → ℤ → Type 0
IsIgnored [] v = ⊥
IsIgnored (x ∷ xs) (pos n) = (n ≡ x) ⊎ IsIgnored xs (pos n)
IsIgnored (x ∷ xs) (negsuc n) = (n + 1 ≡ x) ⊎ IsIgnored xs (negsuc n)

-- The status is 0 or one of the errors.
abbrev pub IsRight : List ℕ → ℤ → Type 0
IsRight ignored (pos n) = (n ≡ 0) ⊎ IsIgnored ignored (pos n)
IsRight ignored (negsuc n) = IsIgnored ignored (negsuc n)

IsIgnored-iff : (ignored : List ℕ) (v : ℤ) → (holds (abs v) ignored ≡ true) ↔ IsIgnored ignored v
IsIgnored-iff [] v = ground arith
IsIgnored-iff (x ∷ xs) (pos n) = ground (arith, IsIgnored-iff xs (pos n))
IsIgnored-iff (x ∷ xs) (negsuc n) = ground (arith, IsIgnored-iff xs (negsuc n))

IsRight-iff : (ignored : List ℕ) (v : ℤ) → (is_failure ignored v ≡ false) ↔ IsRight ignored v
unfolding is_failure
IsRight-iff ignored (pos n) = ground (arith, IsIgnored-iff ignored (pos n))
IsRight-iff ignored (negsuc n) = ground (arith, IsIgnored-iff ignored (negsuc n))

-- A future with a status that is 0 or an ignored error.
abbrev pub IsFine : List ℕ → Option Answer → Type 0
IsFine ignored none = ⊥
IsFine ignored (some broken) = ⊥
IsFine ignored (some (status v)) = IsRight ignored v

fine_ready :
    (ignored : List ℕ) (futures : List (Option Answer))
    → All (IsFine ignored) futures
    → all_ready futures ≡ true
fine_ready ignored [] h = refl
fine_ready ignored (none ∷ futures) h = absurd h.0
fine_ready ignored (some broken ∷ futures) h = absurd h.0
fine_ready ignored (some (status v) ∷ futures) h = fine_ready ignored futures h.1

collect-IsFine :
    (ignored : List ℕ) (futures : List (Option Answer))
    → (collect ignored futures ≡ some success) ↔ All (IsFine ignored) futures
unfolding collect
collect-IsFine ignored [] = (λ _. tt, λ _. refl)
collect-IsFine ignored (none ∷ futures) = (λ h. absurd (ground (arith, h)), λ h. absurd h.0)
collect-IsFine ignored (some broken ∷ futures) = (λ h. absurd (ground (arith, h)), λ h. absurd h.0)
collect-IsFine ignored (some (status v) ∷ futures) = elim (Bool-cases (is_failure ignored v)) [
  | inl x ↦ rw x (
    λ h. absurd (ground (arith, h)),
    λ h. let fine = (IsRight-iff ignored v).1 h.0 in absurd (ground arith),
  )
  | inr x ↦ rw x (
    λ h. ((IsRight-iff ignored v).0 x, (collect-IsFine ignored futures).0 h),
    λ h. (collect-IsFine ignored futures).1 h.1,
  )
]

-- A wait ends with success exactly when every future has a status that is 0 or an ignored error.
pub get_return_status_iff :
    (ignored : List ℕ) (futures : List (Option Answer))
    → (get_return_status ignored futures ≡ some success) ↔ All (IsFine ignored) futures
unfolding get_return_status
get_return_status_iff ignored futures = elim (Bool-cases (all_ready futures)) [
  | inl x ↦ rw x (collect-IsFine ignored futures)
  | inr x ↦ rw x (
    λ h. absurd (ground (arith, h)),
    λ h. absurd (ground (arith, fine_ready ignored futures h, x)),
  )
]

module _ (w : Wire) (c : Rtnl) (e : Errno) (new_message : Message)
    (answer : Message → Option Answer) where
  -- A route that is no failure: its future is fine, or its message could not be made.
  abbrev pub IsPassed : List ℕ → Made Message → Type 0
  IsPassed ignored none = ⊥
  IsPassed ignored (some (result, m)) = is_success result ≡ true → IsFine ignored (answer m)

  abbrev AllFine : List ℕ → Option (List Message) → Type 0
  AllFine ignored none = ⊥
  AllFine ignored (some ms) = All (IsFine ignored) (map answer ms)
