-- ===== src/Netlink/Whole.antt =====
-- rnl/NetlinkMessage.cpp: no request is discarded while few have been added.
use fbmeshd.Prelude.{
  if◌then◌else◌, refl, ℕ, zero, suc, ◌+◌, ◌≤◌, ◌<◌, ◌≡◌, inl, inr, sym, subst, Bool, true, false,
  not, Option, none, some, List, [], ◌∷◌, ◌++◌, arith, ◌==◌, ltb, length, length-append, min,
  nat_eq, Bool-cases, All, All-map,
}
use fbmeshd.Prelude.Dict.{find, contains, emplace, emplace-All, erase-All}
use fbmeshd.Prelude.Int.{ℤ, pos}
use fbmeshd.Netlink.{
  NetlinkMessage, Answer, status, broken, Socket, new_socket, max_nl_message_queue, max_iov_msg,
  increment, file, fill, enqueue, send_netlink_message, process_ack, answer_request,
  set_return_status_value, add_netlink_message, on_message_timer,
}
use fbmeshd.Netlink.Receive.{Errno, Receiver, count_ack, process_error, process_done}
use fbmeshd.Netlink.Quiet.{process_message-keeps}
use fbmeshd.Netlink.Places.{requests_of, filed_of, answers_of}
use fbmeshd.Netlink.Reached.{Event, adds, receives, times_out, serve}
use fbmeshd.Netlink.Answers.{serve_all, asked, serve_all-places}

abbrev pub IsStatus : Answer → Type 0
IsStatus (status v) = Unit
IsStatus broken = ⊥

abbrev IsBelow : ℕ → List (ℕ × NetlinkMessage) → Type 0
IsBelow n l = All (λ e. e.0 ≤ n) l

-- The requests that wait for an answer have had earlier numbers, no promise was broken, and no more
-- than n requests are in the queue or sent.
abbrev IsWhole : ℕ → Socket → Type 0
IsWhole n s =
    IsBelow s.sequence_number s.seq_no_map
    × All (λ a. IsStatus a.1) s.answers
    × (length s.msg_queue + s.sequence_number ≤ n)

contains-IsBelow :
    (n k : ℕ) (l : List (ℕ × NetlinkMessage)) → IsBelow n l → n < k → contains k l ≡ false
contains-IsBelow n k [] h less = ground arith
contains-IsBelow n k ((j, m) ∷ l) h less = ground (arith, contains-IsBelow n k l h.1, h.0)

file-new :
    (seq : ℕ) (m : NetlinkMessage) (s : Socket)
    → contains seq s.seq_no_map ≡ false
    → file seq m s ≡ record s { seq_no_map = emplace seq m s.seq_no_map }
unfolding file
file-new seq m s h = rw h refl

fill-IsWhole :
    (n k : ℕ) (queue : List NetlinkMessage) (s : Socket)
    → n < max_nl_message_queue
    → IsBelow s.sequence_number s.seq_no_map
    → All (λ a. IsStatus a.1) s.answers
    → length queue + s.sequence_number ≤ n
    → IsWhole n (fill k queue s)
unfolding fill
fill-IsWhole n zero queue s few b a h = (b, a, h)
fill-IsWhole n (suc k) [] s few b a h = (b, a, h)
fill-IsWhole n (suc k) (m ∷ queue) s few b a h =
    let seq = increment s.sequence_number in
    let t = record s { sequence_number = seq; sent = s.sent ++ (seq, m) ∷ [] } in
    let next : seq ≡ s.sequence_number + 1 = omega arith in
    let new = contains-IsBelow s.sequence_number seq s.seq_no_map b (omega arith) in
    let later : IsBelow seq s.seq_no_map =
      All-map (λ e le. omega (arith, le, next)) s.seq_no_map b in
    subst (λ x. IsWhole n (fill k queue x)) (sym (file-new seq m t new))
      (fill-IsWhole n k queue (record t { seq_no_map = emplace seq m s.seq_no_map }) few
        (emplace-All (λ e. e.0 ≤ seq) seq m s.seq_no_map (omega arith) later) a
        (omega (arith, h, next)))

module _ (sendmsg : List (ℕ × NetlinkMessage) → Bool) (n : ℕ) (few : n < max_nl_message_queue) where
  send-IsWhole : (s : Socket) → IsWhole n s → IsWhole n (send_netlink_message sendmsg s)
  unfolding send_netlink_message
  send-IsWhole s (b, a, h) = elim (Bool-cases (min (length s.msg_queue) max_iov_msg == 0)) [
    | inl e ↦ rw e (b, a, h)
    | inr e ↦ rw e (fill-IsWhole n _ s.msg_queue s few b a h)
  ]

  process_ack-IsWhole : (ack : ℕ) (s : Socket) → IsWhole n s → IsWhole n (process_ack sendmsg ack s)
  unfolding process_ack
  process_ack-IsWhole ack s h = elim (Bool-cases (ack == s.last_seq_no)) [
    | inl e ↦ rw e (send-IsWhole (record s { is_timer_scheduled = false }) h)
    | inr e ↦ rw e h
  ]

  answer_request-IsWhole :
      (seq : ℕ) (v : ℤ) (o : Option NetlinkMessage) (s : Socket)
      → IsWhole n s
      → IsWhole n (answer_request seq v o s)
  unfolding answer_request
  answer_request-IsWhole seq v none s h = h
  answer_request-IsWhole seq v (some m) s (b, a, h) =
      (erase-All (λ e. e.0 ≤ s.sequence_number) seq s.seq_no_map b, (tt, a), h)

  process_error-IsWhole :
      (e : Errno) (port seq : ℕ) (v : ℤ) (s : Socket)
      → IsWhole n s
      → IsWhole n (process_error sendmsg e port seq v s)
  unfolding process_error count_ack set_return_status_value
  process_error-IsWhole e port seq v s h = elim (Bool-cases (not (port == s.pid))) [
    | inl x ↦ rw x h
    | inr x ↦ rw x (
        process_ack-IsWhole seq (count_ack e v (set_return_status_value seq v s))
          (answer_request-IsWhole seq v (find seq s.seq_no_map) s h))
  ]

  process_done-IsWhole :
      (seq : ℕ) (s : Socket) → IsWhole n s → IsWhole n (process_done sendmsg seq s)
  unfolding process_done set_return_status_value
  process_done-IsWhole seq s h =
      let t = process_ack sendmsg seq s in
      answer_request-IsWhole seq (pos 0) (find seq t.seq_no_map) t (process_ack-IsWhole seq s h)

  enqueue-IsWhole :
      (k : ℕ) (ms : List NetlinkMessage) (s : Socket)
      → k ≡ length s.msg_queue
      → IsBelow s.sequence_number s.seq_no_map
      → All (λ a. IsStatus a.1) s.answers
      → length ms + k + s.sequence_number ≤ n
      → IsWhole n (enqueue k ms s)
  unfolding enqueue
  enqueue-IsWhole k [] s same b a h = (b, a, omega (arith, same, h))
  enqueue-IsWhole k (m ∷ ms) s same b a h =
      let free : ltb (suc k) max_nl_message_queue ≡ true = ground (arith, h, few) in
      rw free (
        enqueue-IsWhole (suc k) ms (record s { msg_queue = s.msg_queue ++ m ∷ [] })
          (omega (arith, same, length-append s.msg_queue (m ∷ []))) b a (omega (arith, h)))

  add-IsWhole :
      (ms : List NetlinkMessage) (s : Socket)
      → IsBelow s.sequence_number s.seq_no_map
      → All (λ a. IsStatus a.1) s.answers
      → length ms + length s.msg_queue + s.sequence_number ≤ n
      → IsWhole n (add_netlink_message sendmsg ms s)
  unfolding add_netlink_message
  add-IsWhole ms s b a h =
      let t = enqueue (length s.msg_queue) ms s in
      let whole = enqueue-IsWhole (length s.msg_queue) ms s refl b a h in
      elim (Bool-cases (not t.is_timer_scheduled)) [
        | inl x ↦ rw x (send-IsWhole t whole)
        | inr x ↦ rw x whole
      ]

abbrev pub statuses_of : ℕ → List (ℕ × Answer) → ℕ
statuses_of p [] = 0
statuses_of p ((q, status v) ∷ l) = (if q == p then 1 else 0) + statuses_of p l
statuses_of p ((q, broken) ∷ l) = statuses_of p l

statuses_of-answers :
    (p : ℕ) (l : List (ℕ × Answer)) → All (λ a. IsStatus a.1) l → answers_of p l ≡ statuses_of p l
statuses_of-answers p [] h = refl
statuses_of-answers p ((q, status v) ∷ l) h = ground (arith, statuses_of-answers p l h.1)
statuses_of-answers p ((q, broken) ∷ l) h = elim h.0 [ ]

module _ (sendmsg : List (ℕ × NetlinkMessage) → Bool) (e : Errno) where
  serve_all-IsWhole :
      (events : List Event) (n : ℕ) (r : Receiver)
      → IsWhole n r.socket
      → length (asked events) + n < max_nl_message_queue
      → IsWhole (length (asked events) + n) (serve_all sendmsg e events r).socket
  unfolding on_message_timer
  serve_all-IsWhole [] n r (b, a, h) few = (b, a, omega (arith, h))
  serve_all-IsWhole (adds ms ∷ events) n r (b, a, h) few =
      let all = length-append ms (asked events) in
      let (b', a', h') =
        serve_all-IsWhole events (length ms + n) (serve sendmsg e (adds ms) r)
          (add-IsWhole sendmsg (length ms + n) (omega (arith, few, all)) ms r.socket b a
            (omega (arith, h)))
          (omega (arith, few, all)) in
      (b', a', omega (arith, h', all))
  serve_all-IsWhole (receives ms ∷ events) n r h few =
      let small : n < max_nl_message_queue = omega (arith, few) in
      serve_all-IsWhole events n (serve sendmsg e (receives ms) r)
        (process_message-keeps sendmsg e (IsWhole n)
          (λ port seq v s. process_error-IsWhole sendmsg n small e port seq v s)
          (λ seq s. process_done-IsWhole sendmsg n small seq s) (λ s w. w) ms r h)
        few
  serve_all-IsWhole (times_out ∷ events) n r h few =
      serve_all-IsWhole events n (serve sendmsg e times_out r)
        (send-IsWhole sendmsg n (omega (arith, few))
          (record r.socket { is_timer_scheduled = false }) h)
        few

  -- From a new socket on, whatever is received and whenever the timer fires, as long as fewer
  -- requests are added in all than the queue may hold, a promise is in as many places as requests
  -- with it were added: the queue, the requests sent without an answer, and those answered with a
  -- status. So a request that is added once is never discarded or lost, never answered twice, and
  -- never answered while it still waits.
  pub serve_all-statuses_of :
      (last pid p : ℕ) (events : List Event) (r : Receiver)
      → r.socket ≡ new_socket last pid
      → length (asked events) < max_nl_message_queue
      → let s = (serve_all sendmsg e events r).socket in
        requests_of p s.msg_queue + filed_of p s.seq_no_map + statuses_of p s.answers
        ≡ requests_of p (asked events)
  serve_all-statuses_of last pid p events r new few =
      let start : IsWhole 0 r.socket = subst (IsWhole 0) (sym new) (tt, tt, omega arith) in
      let whole = serve_all-IsWhole events 0 r start (omega (arith, few)) in
      let s = (serve_all sendmsg e events r).socket in
      omega (
        arith,
        serve_all-places sendmsg e last pid p events r new,
        statuses_of-answers p s.answers whole.1,
      )
