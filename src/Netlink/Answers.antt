-- ===== src/Netlink/Answers.antt =====
-- rnl/NetlinkMessage.cpp: every request is in one place, the queue, the requests sent without an
-- answer, or the answered ones.
use fbmeshd.Prelude.{
  ℕ, ◌+◌, ◌≡◌, inl, inr, refl, sym, subst, ◌∙◌, Bool, false, not, List, [], ◌∷◌, ◌++◌, arith, ◌==◌,
  length, nat_eq, Bool-cases,
}
use fbmeshd.Prelude.Dict.{find}
use fbmeshd.Prelude.Int.{ℤ, pos}
use fbmeshd.Netlink.{
  NetlinkMessage, Socket, new_socket, enqueue, on_message_timer, process_ack, add_netlink_message,
  set_return_status_value,
}
use fbmeshd.Netlink.Receive.{
  Errno, Incoming, Receiver, count_ack, process_error, process_done, process_message,
}
use fbmeshd.Netlink.Quiet.{process_message-keeps}
use fbmeshd.Netlink.Places.{
  requests_of, places, IsKept, count-append, send-IsKept, process_ack-IsKept, answer_request-IsKept,
  enqueue-IsKept,
}
use fbmeshd.Netlink.Reached.{Event, adds, receives, times_out, serve}

-- The requests that some events add.
abbrev pub asked : List Event → List NetlinkMessage
asked [] = []
asked (adds ms ∷ events) = ms ++ asked events
asked (receives ms ∷ events) = asked events
asked (times_out ∷ events) = asked events

module _ (sendmsg : List (ℕ × NetlinkMessage) → Bool) (e : Errno) where
  set_return_status_value-IsKept :
      (p n seq : ℕ) (v : ℤ) (s : Socket)
      → IsKept p n s
      → IsKept p n (set_return_status_value seq v s)
  unfolding set_return_status_value
  set_return_status_value-IsKept p n seq v s h =
      answer_request-IsKept p n seq v (find seq s.seq_no_map) s refl h

  process_error-IsKept :
      (p n port seq : ℕ) (v : ℤ) (s : Socket)
      → IsKept p n s
      → IsKept p n (process_error sendmsg e port seq v s)
  unfolding process_error count_ack
  process_error-IsKept p n port seq v s h = elim (Bool-cases (not (port == s.pid))) [
    | inl x ↦ rw x h
    | inr x ↦ rw x (
        process_ack-IsKept sendmsg p n seq (count_ack e v (set_return_status_value seq v s))
          (set_return_status_value-IsKept p n seq v s h))
  ]

  process_done-IsKept :
      (p n seq : ℕ) (s : Socket) → IsKept p n s → IsKept p n (process_done sendmsg seq s)
  unfolding process_done
  process_done-IsKept p n seq s h =
      set_return_status_value-IsKept p n seq (pos 0) (process_ack sendmsg seq s)
        (process_ack-IsKept sendmsg p n seq s h)

  process_message-IsKept :
      (p n : ℕ) (ms : List Incoming) (r : Receiver)
      → IsKept p n r.socket
      → IsKept p n (process_message sendmsg e ms r).socket
  process_message-IsKept p n =
      process_message-keeps sendmsg e (IsKept p n)
        (λ port seq v s. process_error-IsKept p n port seq v s)
        (λ seq s. process_done-IsKept p n seq s) (λ s h. h)

  add-IsKept :
      (p n : ℕ) (ms : List NetlinkMessage) (s : Socket)
      → IsKept p n s
      → IsKept p (requests_of p ms + n) (add_netlink_message sendmsg ms s)
  unfolding add_netlink_message
  add-IsKept p n ms s h =
      let t = enqueue (length s.msg_queue) ms s in
      let kept = enqueue-IsKept p n (length s.msg_queue) ms s h in
      elim (Bool-cases (not t.is_timer_scheduled)) [
        | inl x ↦ rw x (send-IsKept sendmsg p _ t kept)
        | inr x ↦ rw x kept
      ]

  abbrev pub serve_all : List Event → Receiver → Receiver
  serve_all [] r = r
  serve_all (event ∷ events) r = serve_all events (serve sendmsg e event r)

  serve_all-IsKept :
      (p : ℕ) (events : List Event) (n : ℕ) (r : Receiver)
      → IsKept p n r.socket
      → IsKept p (requests_of p (asked events) + n) (serve_all events r).socket
  unfolding on_message_timer
  serve_all-IsKept p [] n r (u, h) = (u, ground (arith, h))
  serve_all-IsKept p (adds ms ∷ events) n r h =
      let (u, k) =
        serve_all-IsKept p events (requests_of p ms + n) (serve sendmsg e (adds ms) r)
          (add-IsKept p n ms r.socket h) in
      (
        u,
        k ∙ omega (arith, count-append (λ (x : NetlinkMessage). x.promise == p) ms (asked events)),
      )
  serve_all-IsKept p (receives ms ∷ events) n r h =
      serve_all-IsKept p events n _ (process_message-IsKept p n ms r h)
  serve_all-IsKept p (times_out ∷ events) n r h =
      serve_all-IsKept p events n _
        (send-IsKept sendmsg p n (record r.socket { is_timer_scheduled = false }) h)

  -- From a new socket on, whatever is added and received and whenever the timer fires, a promise is
  -- in as many places as requests with it were added: the queue, the requests sent without an
  -- answer, and the answered ones, whose answer may be a broken promise.
  pub serve_all-places :
      (last pid p : ℕ) (events : List Event) (r : Receiver)
      → r.socket ≡ new_socket last pid
      → places p (serve_all events r).socket ≡ requests_of p (asked events)
  serve_all-places last pid p events r h =
      let start : IsKept p 0 r.socket = subst (IsKept p 0) (sym h) (tt, refl) in
      (serve_all-IsKept p events 0 r start).1 ∙ omega arith
