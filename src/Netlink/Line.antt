-- ===== src/Netlink/Line.antt =====
-- rnl/NetlinkMessage.cpp: the line of requests, when some are added and when answers come.
use mathlib.Core.List.{append_assoc}
use fbmeshd.Prelude.{
  ℕ, ◌≡◌, inl, inr, refl, sym, ◌∙◌, Bool, not, List, ◌++◌, ◌==◌, length, take, nat_eq, Bool-cases,
}
use fbmeshd.Prelude.Int.{ℤ, pos}
use fbmeshd.Netlink.{
  NetlinkMessage, Socket, process_ack, enqueue, add_netlink_message, set_return_status_value,
}
use fbmeshd.Netlink.Receive.{Errno, count_ack, process_error, process_done}
use fbmeshd.Netlink.Order.{messages, line, Numbered}
use fbmeshd.Netlink.Steps.{
  Keeps, IsWatched, Keeps-trans, send-Keeps, send-IsWatched, process_ack-Keeps,
  process_ack-IsWatched, answer_request-Keeps, answer_request-IsWatched, Same, room, enqueue-Same,
}

module _ (sendmsg : List (ℕ × NetlinkMessage) → Bool) where
  -- Adding messages puts those for which there is room at the end of the line, in their order; none
  -- before them is lost or sent twice, and the requests sent keep their numbers.
  pub add_netlink_message-line :
      (ms : List NetlinkMessage) (s : Socket)
      → line (add_netlink_message sendmsg ms s) ≡ line s ++ take (room (length s.msg_queue)) ms
  unfolding add_netlink_message Same
  add_netlink_message-line ms s =
      let t = enqueue (length s.msg_queue) ms s in
      let ((a, b, c), q) = enqueue-Same (length s.msg_queue) ms s in
      let joined : line t ≡ line s ++ take (room (length s.msg_queue)) ms =
        rw (a, q) (sym (append_assoc (messages s) s.msg_queue _)) in
      elim (Bool-cases (not t.is_timer_scheduled)) [
        | inl e ↦ rw e ((send-Keeps sendmsg t).0 ∙ joined)
        | inr e ↦ rw e joined
      ]

  pub add_netlink_message-Numbered :
      (ms : List NetlinkMessage) (s : Socket)
      → Numbered s.sent s.sequence_number
      → Numbered
          (add_netlink_message sendmsg ms s).sent
          (add_netlink_message sendmsg ms s).sequence_number
  unfolding add_netlink_message Same
  add_netlink_message-Numbered ms s h =
      let t = enqueue (length s.msg_queue) ms s in
      let ((a, b, c), q) = enqueue-Same (length s.msg_queue) ms s in
      let same : Numbered t.sent t.sequence_number = rw (a, b) h in
      elim (Bool-cases (not t.is_timer_scheduled)) [
        | inl e ↦ rw e ((send-Keeps sendmsg t).1 same)
        | inr e ↦ rw e same
      ]

  pub add_netlink_message-IsWatched :
      (ms : List NetlinkMessage) (s : Socket) → IsWatched (add_netlink_message sendmsg ms s)
  unfolding add_netlink_message
  add_netlink_message-IsWatched ms s =
      let t = enqueue (length s.msg_queue) ms s in
      elim (Bool-cases t.is_timer_scheduled) [
        | inl e ↦ rw e (inr e)
        | inr e ↦ rw e (send-IsWatched sendmsg t)
      ]

  pub process_done-Keeps : (seq : ℕ) (s : Socket) → Keeps s (process_done sendmsg seq s)
  unfolding process_done set_return_status_value
  process_done-Keeps seq s =
      let t = process_ack sendmsg seq s in
      Keeps-trans s t (set_return_status_value seq (pos 0) t) (process_ack-Keeps sendmsg seq s)
        (answer_request-Keeps seq (pos 0) _ t)

  pub process_done-IsWatched :
      (seq : ℕ) (s : Socket) → IsWatched s → IsWatched (process_done sendmsg seq s)
  unfolding process_done set_return_status_value
  process_done-IsWatched seq s h =
      answer_request-IsWatched seq (pos 0) _ (process_ack sendmsg seq s)
        (process_ack-IsWatched sendmsg seq s h)

module _ (sendmsg : List (ℕ × NetlinkMessage) → Bool) (e : Errno) where
  pub process_error-Keeps :
      (p seq : ℕ) (v : ℤ) (s : Socket) → Keeps s (process_error sendmsg e p seq v s)
  unfolding process_error count_ack set_return_status_value
  process_error-Keeps p seq v s = elim (Bool-cases (not (p == s.pid))) [
    | inl x ↦ rw x (refl, λ n. n)
    | inr x ↦
        let t = set_return_status_value seq v s in
        rw x (
          Keeps-trans s t (process_ack sendmsg seq (count_ack e v t))
            (answer_request-Keeps seq v _ s) (process_ack-Keeps sendmsg seq (count_ack e v t)))
  ]

  pub process_error-IsWatched :
      (p seq : ℕ) (v : ℤ) (s : Socket) → IsWatched s → IsWatched (process_error sendmsg e p seq v s)
  unfolding process_error count_ack set_return_status_value
  process_error-IsWatched p seq v s h = elim (Bool-cases (not (p == s.pid))) [
    | inl x ↦ rw x h
    | inr x ↦ rw x (
        process_ack-IsWatched sendmsg seq (count_ack e v (set_return_status_value seq v s))
          (answer_request-IsWatched seq v _ s h))
  ]
