-- ===== src/Netlink/Order.antt =====
-- rnl/NetlinkMessage.cpp: the order in which requests are sent, their numbers, and the timer.
use mathlib.Core.List.{append_assoc, map-append}
use fbmeshd.Prelude.{
  ℕ, zero, suc, ◌+◌, ◌-◌, ◌%◌, ◌^◌, ◌≡◌, refl, sym, ap, ◌∙◌, List, [], ◌∷◌, ◌++◌, map, arith,
  length, length-append, drop, nat_eq,
}
use fbmeshd.Netlink.{NetlinkMessage, Socket, increment, file, fill, batch}

-- The requests that have been sent, and those before and after the sending in one line.
abbrev pub messages : Socket → List NetlinkMessage
messages s = map (λ e. e.1) s.sent

abbrev pub line : Socket → List NetlinkMessage
line s = messages s ++ s.msg_queue

-- The sent requests are numbered from 1, in 32 bits, and the counter is the last number.
abbrev pub IsNumbered : Socket → Type 0
IsNumbered s = (s.sent ≡ batch 0 (messages s)) × (s.sequence_number ≡ length s.sent % 2 ^ 32)

pub file-sent : (seq : ℕ) (m : NetlinkMessage) (s : Socket) → (file seq m s).sent ≡ s.sent
unfolding file
file-sent seq m s = ground arith

file-sequence_number :
    (seq : ℕ) (m : NetlinkMessage) (s : Socket) → (file seq m s).sequence_number ≡ s.sequence_number
unfolding file
file-sequence_number seq m s = ground arith

map-snoc :
    (sent : List (ℕ × NetlinkMessage)) (seq : ℕ) (m : NetlinkMessage)
    → map (λ e. e.1) (sent ++ (seq, m) ∷ []) ≡ map (λ e. e.1) sent ++ m ∷ []
map-snoc sent seq m = map-append (λ (e : ℕ × NetlinkMessage). e.1) sent ((seq, m) ∷ [])

pub fill-line :
    (n : ℕ) (queue : List NetlinkMessage) (s : Socket) → line (fill n queue s) ≡ messages s ++ queue
unfolding fill
fill-line zero queue s = refl
fill-line (suc n) [] s = refl
fill-line (suc n) (m ∷ queue) s =
    let seq = increment s.sequence_number in
    let t = record s { sequence_number = seq; sent = s.sent ++ (seq, m) ∷ [] } in
    fill-line n queue (file seq m t)
    ∙ ap (λ l. map (λ e. e.1) l ++ queue) (file-sent seq m t)
    ∙ ap (λ l. l ++ queue) (map-snoc s.sent seq m)
    ∙ append_assoc (messages s) (m ∷ []) queue

increment_mod : (n : ℕ) → increment (n % 2 ^ 32) ≡ (n + 1) % 2 ^ 32
increment_mod n = omega arith

batch-snoc :
    (seq : ℕ) (ms : List NetlinkMessage) (m : NetlinkMessage)
    → batch (seq % 2 ^ 32) (ms ++ m ∷ [])
      ≡ batch (seq % 2 ^ 32) ms ++ ((seq + length ms + 1) % 2 ^ 32, m) ∷ []
batch-snoc seq [] m = ap (λ k. (k, m) ∷ []) (omega arith)
batch-snoc seq (x ∷ ms) m = rw (increment_mod seq) (
    ap (λ l. ((seq + 1) % 2 ^ 32, x) ∷ l)
      (batch-snoc (seq + 1) ms m
        ∙ ap (λ k. batch ((seq + 1) % 2 ^ 32) ms ++ (k % 2 ^ 32, m) ∷ []) (omega arith)))

length-messages : (l : List (ℕ × NetlinkMessage)) → length (map (λ e. e.1) l) ≡ length l
length-messages [] = refl
length-messages (e ∷ l) = ap suc (length-messages l)

unfoldable pub Numbered : List (ℕ × NetlinkMessage) → ℕ → Type 0
Numbered sent seq = (sent ≡ batch 0 (map (λ e. e.1) sent)) × (seq ≡ length sent % 2 ^ 32)

Numbered-snoc :
    (sent : List (ℕ × NetlinkMessage)) (seq : ℕ) (m : NetlinkMessage)
    → Numbered sent seq
    → Numbered (sent ++ (increment seq, m) ∷ []) (increment seq)
unfolding Numbered
Numbered-snoc sent seq m (e, k) =
    let next : increment seq ≡ (0 + length (map (λ e. e.1) sent) + 1) % 2 ^ 32 =
      ap increment k
      ∙ increment_mod (length sent)
      ∙ ap (λ n. n % 2 ^ 32) (omega (arith, length-messages sent)) in
    (
      ap (λ l. l ++ (increment seq, m) ∷ []) e
          ∙ ap (λ k. batch 0 (map (λ e. e.1) sent) ++ (k, m) ∷ []) next
          ∙ sym (batch-snoc 0 (map (λ e. e.1) sent) m)
          ∙ ap (batch 0) (sym (map-snoc sent (increment seq) m)),
      next
          ∙ ap (λ n. n % 2 ^ 32)
              (omega (arith, length-messages sent, length-append sent ((increment seq, m) ∷ []))),
    )

pub fill-Numbered :
    (n : ℕ) (queue : List NetlinkMessage) (s : Socket)
    → Numbered s.sent s.sequence_number
    → Numbered (fill n queue s).sent (fill n queue s).sequence_number
unfolding fill Numbered
fill-Numbered zero queue s h = h
fill-Numbered (suc n) [] s h = h
fill-Numbered (suc n) (m ∷ queue) s h =
    let seq = increment s.sequence_number in
    let t = record s { sequence_number = seq; sent = s.sent ++ (seq, m) ∷ [] } in
    fill-Numbered n queue (file seq m t) (
      rw (file-sent seq m t, file-sequence_number seq m t)
        (Numbered-snoc s.sent s.sequence_number m h))

pub fill-msg_queue :
    (n : ℕ) (queue : List NetlinkMessage) (s : Socket) → (fill n queue s).msg_queue ≡ drop n queue
unfolding fill
fill-msg_queue zero queue s = refl
fill-msg_queue (suc n) [] s = refl
fill-msg_queue (suc n) (m ∷ queue) s = fill-msg_queue n queue _

pub length-drop : {A : Type 0} (n : ℕ) (l : List A) → length (drop n l) ≡ length l - n
length-drop zero l = omega arith
length-drop (suc n) [] = omega arith
length-drop (suc n) (x ∷ l) = omega (arith, length-drop n l)

pub length-nil : {A : Type 0} (l : List A) → length l ≡ 0 → l ≡ []
length-nil [] h = refl
length-nil (x ∷ l) h = absurd (omega (arith, h))
