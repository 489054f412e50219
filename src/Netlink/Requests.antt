-- ===== src/Netlink/Requests.antt =====
-- rnl/NetlinkMessage.cpp: the requests of `NetlinkProtocolSocket`, and the wait for their answers.
--
-- A wait is given what each future has when it ends.
use fbmeshd.Prelude.{
  ℕ, Bool, true, false, not, ◌&&◌, ◌||◌, Option, none, some, List, [], ◌∷◌, ◌==◌, if◌then◌else◌,
}
use fbmeshd.Prelude.Int.{ℤ}
use fbmeshd.Netlink.{Answer, status, broken}
use fbmeshd.Netlink.Receive.{abs}

pub data ResultCode : Type 0 where
  success : ResultCode
  fail : ResultCode
  timeout : ResultCode
  syserr : ResultCode
  no_message_buffer : ResultCode
  sendmsg_failed : ResultCode
  invalid_address_family : ResultCode
  no_label : ResultCode
  no_nexthop_ip : ResultCode
  no_loopback_index : ResultCode
  unknown_label_action : ResultCode
  no_ip : ResultCode

abbrev pub is_success : ResultCode → Bool
is_success success = true
is_success _ = false

-- Whether every future has something.
abbrev pub all_ready : List (Option Answer) → Bool
all_ready [] = true
all_ready (none ∷ futures) = false
all_ready (some a ∷ futures) = all_ready futures

abbrev pub holds : ℕ → List ℕ → Bool
holds x [] = false
holds x (y ∷ ys) = y == x || holds x ys

unfoldable pub is_failure : List ℕ → ℤ → Bool
is_failure ignored_errors v = not (abs v == 0) && not (holds (abs v) ignored_errors)

-- The loop over the futures; `none` is the exception of a promise that ended without a status.
unfoldable pub collect : List ℕ → List (Option Answer) → Option ResultCode
unfolding is_failure
collect ignored_errors [] = some success
collect ignored_errors (none ∷ futures) = none
collect ignored_errors (some broken ∷ futures) = none
collect ignored_errors (some (status v) ∷ futures) =
    let rest = collect ignored_errors futures in
    if is_failure ignored_errors v then some syserr else rest

unfoldable pub get_return_status : List ℕ → List (Option Answer) → Option ResultCode
unfolding collect
get_return_status ignored_errors futures =
    if all_ready futures then collect ignored_errors futures else some timeout
