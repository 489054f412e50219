-- ===== src/Netlink/Steps.antt =====
-- rnl/NetlinkMessage.cpp: what a step does to the requests in line, their numbers, and the timer.
use mathlib.Core.List.{append_assoc, append-nil}
use fbmeshd.Prelude.{
  ℕ, zero, suc, ◌-◌, min, ◌≡◌, ◌⊎◌, inl, inr, refl, sym, ap, ◌∙◌, Bool, true, false, Option, none,
  some, List, [], ◌∷◌, ◌++◌, arith, ◌==◌, ltb, length, take, nat_eq, Bool-cases,
}
use fbmeshd.Prelude.Int.{ℤ}
use fbmeshd.Netlink.{
  NetlinkMessage, Socket, broken, max_nl_message_queue, max_iov_msg, answer, send_netlink_message,
  process_ack, drop_all, enqueue, answer_request,
}
use fbmeshd.Netlink.Order.{
  line, Numbered, fill-line, fill-Numbered, fill-msg_queue, length-drop, length-nil,
}

-- What a step of the socket keeps: the line of requests and their numbers; and a request in the
-- queue waits for a timer.
abbrev pub Keeps : Socket → Socket → Type 0
Keeps s t =
    (line t ≡ line s) × (Numbered s.sent s.sequence_number → Numbered t.sent t.sequence_number)

abbrev pub IsWatched : Socket → Type 0
IsWatched s = (s.msg_queue ≡ []) ⊎ (s.is_timer_scheduled ≡ true)

pub Keeps-trans : (s t u : Socket) → Keeps s t → Keeps t u → Keeps s u
Keeps-trans s t u (a, b) (c, d) = (c ∙ a, λ n. d (b n))

module _ (sendmsg : List (ℕ × NetlinkMessage) → Bool) where
  send_cases :
      (s : Socket)
      → ((s.msg_queue ≡ []) × (send_netlink_message sendmsg s ≡ s))
        ⊎ ((send_netlink_message sendmsg s).is_timer_scheduled ≡ true)
  unfolding send_netlink_message
  send_cases s = elim (Bool-cases (min (length s.msg_queue) max_iov_msg == 0)) [
    | inl e ↦
        let none_left : length s.msg_queue ≡ 0 = ground (arith, e) in
        rw e (inl (length-nil s.msg_queue none_left, refl))
    | inr e ↦ rw e (inr refl)
  ]

  pub send-Keeps : (s : Socket) → Keeps s (send_netlink_message sendmsg s)
  unfolding send_netlink_message
  send-Keeps s = elim (Bool-cases (min (length s.msg_queue) max_iov_msg == 0)) [
    | inl e ↦ rw e (refl, λ n. n)
    | inr e ↦ rw e (fill-line _ s.msg_queue s, fill-Numbered _ s.msg_queue s)
  ]

  pub send-IsWatched : (s : Socket) → IsWatched (send_netlink_message sendmsg s)
  send-IsWatched s = elim (send_cases s) [
    | inl (e, same) ↦ inl (ap (λ (t : Socket). t.msg_queue) same ∙ e)
    | inr t ↦ inr t
  ]

  -- A sending takes as many requests from the queue as one `sendmsg` may have.
  pub length-send :
      (s : Socket)
      → length (send_netlink_message sendmsg s).msg_queue ≡ length s.msg_queue - max_iov_msg
  unfolding send_netlink_message
  length-send s = elim (Bool-cases (min (length s.msg_queue) max_iov_msg == 0)) [
    | inl e ↦ rw e (ground (arith, e))
    | inr e ↦
        rw e (ap length (fill-msg_queue _ s.msg_queue s) ∙ length-drop _ s.msg_queue ∙ omega arith)
  ]

  pub process_ack-Keeps : (ack : ℕ) (s : Socket) → Keeps s (process_ack sendmsg ack s)
  unfolding process_ack
  process_ack-Keeps ack s = elim (Bool-cases (ack == s.last_seq_no)) [
    | inl e ↦ rw e (send-Keeps (record s { is_timer_scheduled = false }))
    | inr e ↦ rw e (refl, λ n. n)
  ]

  pub process_ack-IsWatched :
      (ack : ℕ) (s : Socket) → IsWatched s → IsWatched (process_ack sendmsg ack s)
  unfolding process_ack
  process_ack-IsWatched ack s h = elim (Bool-cases (ack == s.last_seq_no)) [
    | inl e ↦ rw e (send-IsWatched (record s { is_timer_scheduled = false }))
    | inr e ↦ rw e h
  ]

pub answer_request-Keeps :
    (seq : ℕ) (v : ℤ) (o : Option NetlinkMessage) (s : Socket) → Keeps s (answer_request seq v o s)
unfolding answer_request
answer_request-Keeps seq v none s = (refl, λ n. n)
answer_request-Keeps seq v (some m) s = (refl, λ n. n)

pub answer_request-IsWatched :
    (seq : ℕ) (v : ℤ) (o : Option NetlinkMessage) (s : Socket)
    → IsWatched s
    → IsWatched (answer_request seq v o s)
unfolding answer_request
answer_request-IsWatched seq v none s h = h
answer_request-IsWatched seq v (some m) s h = h

-- What adding messages to the queue leaves alone.
unfoldable pub Same : Socket → Socket → Type 0
Same s t =
    (t.sent ≡ s.sent)
    × (t.sequence_number ≡ s.sequence_number)
    × (t.is_timer_scheduled ≡ s.is_timer_scheduled)

drop_all-Same :
    (ms : List NetlinkMessage) (s : Socket)
    → Same s (drop_all ms s) × ((drop_all ms s).msg_queue ≡ s.msg_queue)
unfolding drop_all Same
drop_all-Same [] s = ((refl, refl, refl), refl)
drop_all-Same (m ∷ ms) s = drop_all-Same ms (answer m.promise broken s)

take-nil : {A : Type 0} (k : ℕ) → ◌≡◌ {A = List A} (take k []) []
take-nil zero = refl
take-nil (suc k) = refl

take-suc : {A : Type 0} (k j : ℕ) (x : A) (l : List A) → k ≡ suc j → take k (x ∷ l) ≡ x ∷ take j l
take-suc k j x l e = ap (λ i. take i (x ∷ l)) e

-- The room that a queue of some length has.
abbrev pub room : ℕ → ℕ
room n = max_nl_message_queue - 1 - n

pub enqueue-Same :
    (n : ℕ) (ms : List NetlinkMessage) (s : Socket)
    → Same s (enqueue n ms s) × ((enqueue n ms s).msg_queue ≡ s.msg_queue ++ take (room n) ms)
unfolding enqueue Same
enqueue-Same n [] s = (
  (refl, refl, refl),
  sym (ap (λ l. s.msg_queue ++ l) (take-nil (room n)) ∙ append-nil s.msg_queue),
)
enqueue-Same n (m ∷ ms) s = elim (Bool-cases (ltb (suc n) max_nl_message_queue)) [
  | inl e ↦
      let t = record s { msg_queue = s.msg_queue ++ m ∷ [] } in
      let ((a, b, c), q) = enqueue-Same (suc n) ms t in
      rw e (
        (a, b, c),
        q
            ∙ append_assoc s.msg_queue (m ∷ []) (take (room (suc n)) ms)
            ∙ ap (λ l. s.msg_queue ++ l)
                (sym (take-suc (room n) (room (suc n)) m ms (ground (arith, e)))),
      )
  | inr e ↦
      let full : room n ≡ 0 = ground (arith, e) in
      let (same, q) = drop_all-Same (m ∷ ms) s in
      rw (e, full) (same, q ∙ sym (append-nil s.msg_queue))
]
