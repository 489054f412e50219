-- ===== src/Netlink/Reached.antt =====
-- rnl/NetlinkMessage.cpp: the states that a socket reaches, and how its queue is emptied.
use mathlib.Core.List.{append-nil}
use fbmeshd.Prelude.{
  ℕ, zero, suc, ◌-◌, ◌*◌, ◌≤◌, ◌<◌, ◌≡◌, inl, inr, refl, sym, ap, subst, ◌∙◌, Bool, false, not,
  Option, none, some, List, [], ◌∷◌, ◌++◌, arith, ◌==◌, length, length-append, take, nat_eq,
  Bool-cases, ◌%◌, ◌^◌,
}
use fbmeshd.Prelude.Int.{ℤ, pos}
use fbmeshd.Netlink.{
  NetlinkMessage, Socket, max_nl_message_queue, max_iov_msg, new_socket, batch, on_message_timer,
  process_ack, add_netlink_message, set_return_status_value, answer_request, enqueue,
}
use fbmeshd.Netlink.Receive.{
  Errno, Incoming, Receiver, on_socket, count_ack, process_error, process_done, process_message,
}
use fbmeshd.Netlink.Order.{messages, line, Numbered, length-nil}
use fbmeshd.Netlink.Steps.{IsWatched, send-Keeps, send-IsWatched, length-send, room, enqueue-Same}
use fbmeshd.Netlink.Quiet.{process_message-keeps}
use fbmeshd.Netlink.Line.{
  add_netlink_message-Numbered, add_netlink_message-IsWatched, process_error-Keeps,
  process_error-IsWatched, process_done-Keeps, process_done-IsWatched,
}

-- The queue is below its limit.
abbrev pub IsShort : Socket → Type 0
IsShort s = length s.msg_queue < max_nl_message_queue

answer_request-IsShort :
    (seq : ℕ) (v : ℤ) (o : Option NetlinkMessage) (s : Socket)
    → IsShort s
    → IsShort (answer_request seq v o s)
unfolding answer_request
answer_request-IsShort seq v none s h = h
answer_request-IsShort seq v (some m) s h = h

length-take : {A : Type 0} (n : ℕ) (l : List A) → length (take n l) ≤ n
length-take zero l = omega arith
length-take (suc n) [] = omega arith
length-take (suc n) (x ∷ l) = omega (arith, length-take n l)

module _ (sendmsg : List (ℕ × NetlinkMessage) → Bool) where
  process_ack-IsShort : (ack : ℕ) (s : Socket) → IsShort s → IsShort (process_ack sendmsg ack s)
  unfolding process_ack
  process_ack-IsShort ack s h = elim (Bool-cases (ack == s.last_seq_no)) [
    | inl e ↦ rw e (omega (arith, length-send sendmsg (record s { is_timer_scheduled = false }), h))
    | inr e ↦ rw e h
  ]

  add-IsShort :
      (ms : List NetlinkMessage) (s : Socket)
      → IsShort s
      → IsShort (add_netlink_message sendmsg ms s)
  unfolding add_netlink_message
  add-IsShort ms s h =
      let t = enqueue (length s.msg_queue) ms s in
      let (_, q) = enqueue-Same (length s.msg_queue) ms s in
      let short : IsShort t = rw q (
        omega (
          arith,
          h,
          length-append s.msg_queue (take (room (length s.msg_queue)) ms),
          length-take (room (length s.msg_queue)) ms,
        )) in
      elim (Bool-cases (not t.is_timer_scheduled)) [
        | inl e ↦ rw e (omega (arith, length-send sendmsg t, short))
        | inr e ↦ rw e short
      ]

  module _ (e : Errno) where
    abbrev pub IsRunning : Socket → Type 0
    IsRunning s = IsWatched s × Numbered s.sent s.sequence_number × IsShort s

    error-IsRunning :
        (p seq : ℕ) (v : ℤ) (s : Socket)
        → IsRunning s
        → IsRunning (process_error sendmsg e p seq v s)
    unfolding process_error set_return_status_value count_ack
    error-IsRunning p seq v s (w, n, h) =
        let t = count_ack e v (set_return_status_value seq v s) in
        let short = process_ack-IsShort seq t (answer_request-IsShort seq v _ s h) in
        let is_short =
          elim (Bool-cases (not (p == s.pid)))
            as (λ _. IsShort (process_error sendmsg e p seq v s)) [
              | inl x ↦ rw x h
              | inr x ↦ rw x short
            ] in
        (
          process_error-IsWatched sendmsg e p seq v s w,
          (process_error-Keeps sendmsg e p seq v s).1 n,
          is_short,
        )

    done-IsRunning : (seq : ℕ) (s : Socket) → IsRunning s → IsRunning (process_done sendmsg seq s)
    unfolding process_done set_return_status_value
    done-IsRunning seq s (w, n, h) = (
      process_done-IsWatched sendmsg seq s w,
      (process_done-Keeps sendmsg seq s).1 n,
      answer_request-IsShort seq (pos 0) _ (process_ack sendmsg seq s)
          (process_ack-IsShort seq s h),
    )

    process_message-IsRunning :
        (ms : List Incoming) (r : Receiver)
        → IsRunning r.socket
        → IsRunning (process_message sendmsg e ms r).socket
    process_message-IsRunning =
        process_message-keeps sendmsg e IsRunning (λ p seq v s. error-IsRunning p seq v s)
          (λ seq s. done-IsRunning seq s) (λ s h. h)

pub data Event : Type 0 where
  adds : List NetlinkMessage → Event
  receives : List Incoming → Event
  times_out : Event

module _ (sendmsg : List (ℕ × NetlinkMessage) → Bool) (e : Errno) where
  abbrev pub serve : Event → Receiver → Receiver
  serve (adds ms) = on_socket (add_netlink_message sendmsg ms)
  serve (receives ms) = process_message sendmsg e ms
  serve times_out = on_socket (on_message_timer sendmsg)

  -- What a receiver with a new socket reaches.
  pub data Reach : Receiver → Type 0 where
    starts : {r : Receiver} (last pid : ℕ) → r.socket ≡ new_socket last pid → Reach r
    next : {r : Receiver} → Reach r → (event : Event) → Reach (serve event r)

  timer-IsRunning :
      (s : Socket) → IsRunning sendmsg e s → IsRunning sendmsg e (on_message_timer sendmsg s)
  unfolding on_message_timer
  timer-IsRunning s (w, n, h) =
      let t = record s { is_timer_scheduled = false } in
      (
        send-IsWatched sendmsg t,
        (send-Keeps sendmsg t).1 n,
        omega (arith, length-send sendmsg t, h),
      )

  new-IsRunning : (last pid : ℕ) → IsRunning sendmsg e (new_socket last pid)
  unfolding Numbered
  new-IsRunning last pid = (inl refl, (refl, omega arith), omega arith)

  reached : (r : Receiver) → Reach r → IsRunning sendmsg e r.socket
  reached r (starts last pid h) = subst (IsRunning sendmsg e) (sym h) (new-IsRunning last pid)
  reached r (next {r = t} h (adds ms)) =
      let (w, n, short) = reached t h in
      (
        add_netlink_message-IsWatched sendmsg ms t.socket,
        add_netlink_message-Numbered sendmsg ms t.socket n,
        add-IsShort sendmsg ms t.socket short,
      )
  reached r (next {r = t} h (receives ms)) = process_message-IsRunning sendmsg e ms t (reached t h)
  reached r (next {r = t} h times_out) = timer-IsRunning t.socket (reached t h)

  -- In every state that a socket reaches, whatever is added and received and whenever the timer
  -- fires: if a request is in the queue, the timer is scheduled, so that the queue is not
  -- forgotten; the requests sent are numbered one after the other from 1, in 32 bits; and the queue
  -- is below its limit.
  pub Reach-IsRunning :
      (r : Receiver)
      → Reach r
      → IsWatched r.socket
        × (r.socket.sent ≡ batch 0 (messages r.socket))
        × (r.socket.sequence_number ≡ length r.socket.sent % 2 ^ 32)
        × IsShort r.socket
  unfolding Numbered
  Reach-IsRunning r h = let (w, (a, b), c) = reached r h in (w, a, b, c)

module _ (sendmsg : List (ℕ × NetlinkMessage) → Bool) where
  abbrev pub timeouts : ℕ → Socket → Socket
  timeouts zero s = s
  timeouts (suc k) s = timeouts k (on_message_timer sendmsg s)

  timeouts-queue :
      (k : ℕ) (s : Socket) → length (timeouts k s).msg_queue ≡ length s.msg_queue - k * max_iov_msg
  unfolding on_message_timer
  timeouts-queue zero s = omega arith
  timeouts-queue (suc k) s =
      let t = record s { is_timer_scheduled = false } in
      omega (arith, timeouts-queue k (on_message_timer sendmsg s), length-send sendmsg t)

  timeouts-line : (k : ℕ) (s : Socket) → line (timeouts k s) ≡ line s
  unfolding on_message_timer
  timeouts-line zero s = refl
  timeouts-line (suc k) s =
      timeouts-line k (on_message_timer sendmsg s)
      ∙ (send-Keeps sendmsg (record s { is_timer_scheduled = false })).0

  -- The queue is emptied even if no answer comes: after as many firings of the timer as batches are
  -- needed for the queue, every request of the queue has been sent, in the order of the queue and
  -- after those that had been sent before.
  pub timeouts_drain :
      (k : ℕ) (s : Socket)
      → length s.msg_queue ≤ k * max_iov_msg
      → ((timeouts k s).msg_queue ≡ []) × (messages (timeouts k s) ≡ messages s ++ s.msg_queue)
  timeouts_drain k s h =
      let drained = length-nil (timeouts k s).msg_queue (omega (arith, timeouts-queue k s, h)) in
      (
        drained,
        sym (append-nil (messages (timeouts k s)))
            ∙ ap (λ l. messages (timeouts k s) ++ l) (sym drained)
            ∙ timeouts-line k s,
      )
