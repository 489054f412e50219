-- ===== src/Netlink/Places.antt =====
-- rnl/NetlinkMessage.cpp: where a request is: in the queue, among those sent without an answer, or
-- among the answered.
use fbmeshd.Prelude.{
  ℕ, zero, suc, ◌+◌, ◌≡◌, inl, inr, ap, subst, ◌∙◌, Bool, false, Option, none, some, List, [], ◌∷◌,
  ◌++◌, arith, ◌==◌, ltb, length, count_if, min, nat_eq, Bool-cases,
}
use fbmeshd.Prelude.Dict.{
  find, erase, contains, emplace, Unique, emplace-Unique, find-erase, erase_absent,
}
use fbmeshd.Prelude.Int.{ℤ}
use fbmeshd.Netlink.{
  NetlinkMessage, Answer, broken, Socket, max_nl_message_queue, max_iov_msg, increment, answer,
  file, fill, drop_all, enqueue, send_netlink_message, process_ack, answer_request,
}

abbrev pub requests_of : ℕ → List NetlinkMessage → ℕ
requests_of p = count_if (λ m. m.promise == p)

abbrev pub filed_of : ℕ → List (ℕ × NetlinkMessage) → ℕ
filed_of p = count_if (λ e. e.1.promise == p)

abbrev pub answers_of : ℕ → List (ℕ × Answer) → ℕ
answers_of p = count_if (λ e. e.0 == p)

-- How often a promise is anywhere.
abbrev pub places : ℕ → Socket → ℕ
places p s = requests_of p s.msg_queue + filed_of p s.seq_no_map + answers_of p s.answers

pub count-append :
    {A : Type 0} (t : A → Bool) (xs ys : List A)
    → count_if t (xs ++ ys) ≡ count_if t xs + count_if t ys
count-append t [] ys = omega arith
count-append t (x ∷ xs) ys = ground (arith, count-append t xs ys)

filed-emplace :
    (p k : ℕ) (m : NetlinkMessage) (l : List (ℕ × NetlinkMessage))
    → contains k l ≡ false
    → filed_of p (emplace k m l) ≡ filed_of p l + requests_of p (m ∷ [])
filed-emplace p k m [] h = ground arith
filed-emplace p k m ((j, x) ∷ l) h = ground (arith, filed-emplace p k m l)

filed-erase :
    (p k : ℕ) (m : NetlinkMessage) (l : List (ℕ × NetlinkMessage))
    → Unique l
    → find k l ≡ some m
    → filed_of p (erase k l) + requests_of p (m ∷ []) ≡ filed_of p l
filed-erase p k m [] u h = cc
filed-erase p k m ((j, x) ∷ l) (fresh, u) h = elim (Bool-cases (j == k)) [
  | inl e ↦
      let same : some x ≡ some m = rw e at h in
      let xm : x ≡ m = cc in
      let jk : j ≡ k = ground (arith, e) in
      let gone = erase_absent k l (subst (λ i. find i l ≡ none) jk fresh) in
      rw (e, gone) (ground (arith, ap (λ (y : NetlinkMessage). y.promise) xm))
  | inr e ↦ let rest = filed-erase p k m l u (rw e at h) in rw e (ground (arith, rest))
]

erase-Unique : (k : ℕ) (l : List (ℕ × NetlinkMessage)) → Unique l → Unique (erase k l)
erase-Unique k [] u = tt
erase-Unique k ((j, x) ∷ l) u = ground (arith, erase-Unique k l u.1, find-erase k j l)

-- Each request that waits for an answer has its own number.
abbrev pub IsKept : ℕ → ℕ → Socket → Type 0
IsKept p n s = Unique s.seq_no_map × (places p s ≡ n)

file-Unique :
    (seq : ℕ) (m : NetlinkMessage) (s : Socket)
    → Unique s.seq_no_map
    → Unique (file seq m s).seq_no_map
unfolding file
file-Unique seq m s u = elim (Bool-cases (contains seq s.seq_no_map)) [
  | inl e ↦ rw e u
  | inr e ↦ rw e (emplace-Unique seq m s.seq_no_map u)
]

-- The places of a promise outside the queue.
taken_of : ℕ → Socket → ℕ
taken_of p s = filed_of p s.seq_no_map + answers_of p s.answers

taken_of-file :
    (p seq : ℕ) (m : NetlinkMessage) (s : Socket)
    → taken_of p (file seq m s) ≡ requests_of p (m ∷ []) + taken_of p s
unfolding file taken_of
taken_of-file p seq m s = elim (Bool-cases (contains seq s.seq_no_map)) [
  | inl e ↦ rw e (ground arith)
  | inr e ↦ rw e (ground (arith, filed-emplace p seq m s.seq_no_map e))
]

fill-IsKept :
    (p n k : ℕ) (queue : List NetlinkMessage) (s : Socket)
    → Unique s.seq_no_map
    → requests_of p queue + taken_of p s ≡ n
    → IsKept p n (fill k queue s)
unfolding fill taken_of
fill-IsKept p n zero queue s u h = (u, ground (arith, h))
fill-IsKept p n (suc k) [] s u h = (u, ground (arith, h))
fill-IsKept p n (suc k) (m ∷ queue) s u h =
    let seq = increment s.sequence_number in
    let t = record s { sequence_number = seq; sent = s.sent ++ (seq, m) ∷ [] } in
    fill-IsKept p n k queue (file seq m t) (file-Unique seq m t u)
      (ground (arith, h, taken_of-file p seq m t))

module _ (sendmsg : List (ℕ × NetlinkMessage) → Bool) where
  pub send-IsKept :
      (p n : ℕ) (s : Socket) → IsKept p n s → IsKept p n (send_netlink_message sendmsg s)
  unfolding send_netlink_message taken_of
  send-IsKept p n s (u, h) = elim (Bool-cases (min (length s.msg_queue) max_iov_msg == 0)) [
    | inl e ↦ rw e (u, h)
    | inr e ↦ rw e (fill-IsKept p n _ s.msg_queue s u (ground (arith, h)))
  ]

  pub process_ack-IsKept :
      (p n ack : ℕ) (s : Socket) → IsKept p n s → IsKept p n (process_ack sendmsg ack s)
  unfolding process_ack
  process_ack-IsKept p n ack s h = elim (Bool-cases (ack == s.last_seq_no)) [
    | inl e ↦ rw e (send-IsKept p n (record s { is_timer_scheduled = false }) h)
    | inr e ↦ rw e h
  ]

pub answer_request-IsKept :
    (p n seq : ℕ) (v : ℤ) (o : Option NetlinkMessage) (s : Socket)
    → find seq s.seq_no_map ≡ o
    → IsKept p n s
    → IsKept p n (answer_request seq v o s)
unfolding answer_request
answer_request-IsKept p n seq v none s e h = h
answer_request-IsKept p n seq v (some m) s e (u, h) =
    (erase-Unique seq s.seq_no_map u, ground (arith, h, filed-erase p seq m s.seq_no_map u e))

drop_all-IsKept :
    (p n : ℕ) (ms : List NetlinkMessage) (s : Socket)
    → IsKept p n s
    → IsKept p (requests_of p ms + n) (drop_all ms s)
unfolding drop_all
drop_all-IsKept p n [] s (u, h) = (u, ground (arith, h))
drop_all-IsKept p n (m ∷ ms) s (u, h) =
    let one = requests_of p (m ∷ []) in
    let (v, g) =
      drop_all-IsKept p (one + n) ms (answer m.promise broken s) (u, ground (arith, h)) in
    (v, g ∙ ground arith)

pub enqueue-IsKept :
    (p n k : ℕ) (ms : List NetlinkMessage) (s : Socket)
    → IsKept p n s
    → IsKept p (requests_of p ms + n) (enqueue k ms s)
unfolding enqueue
enqueue-IsKept p n k [] s (u, h) = (u, ground (arith, h))
enqueue-IsKept p n k (m ∷ ms) s (u, h) = elim (Bool-cases (ltb (suc k) max_nl_message_queue)) [
  | inl e ↦
      let t = record s { msg_queue = s.msg_queue ++ m ∷ [] } in
      let (v, g) = enqueue-IsKept p (requests_of p (m ∷ []) + n) (suc k) ms t (
        u,
        ground
            (arith, h, count-append (λ (x : NetlinkMessage). x.promise == p) s.msg_queue (m ∷ [])),
      ) in
      rw e (v, g ∙ ground arith)
  | inr e ↦ rw e (drop_all-IsKept p n (m ∷ ms) s (u, h))
]
