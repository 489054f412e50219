-- ===== src/Mesh/Socket.antt =====
-- nl/NetlinkSocket.h: receiving the answer to a message. A batch is what one call of `nl_recvmsgs`
-- hands to the callbacks. A call that is interrupted is repeated at once, and is no batch; one that
-- fails ends the program.
use fbmeshd.Prelude.{◌≡◌, refl, Bool, true, false, List, [], ◌∷◌, ◌++◌, if◌then◌else◌}
use fbmeshd.Mesh.{Exception, Result, ok, throw, ◌>>=◌, Ensures, >>=-Ensures}

-- The codes that the error callback tells apart.
pub data NlError : Type 0 where
  intr msg_overflow other : NlError

pub data Event (M : Type 0) : Type 0 where
  valid : M → Event M
  error : NlError → Event M
  finish : Event M
  ack : Event M

module _ {M S : Type 0} (callback : M → S → Result S) where
  -- The callbacks over one batch; the Boolean is `ret > 0`. An acknowledgement ends the batch.
  unfoldable pub batch : List (Event M) → S → Bool → Result (S × Bool)
  batch [] s waiting = ok (s, waiting)
  batch (valid m ∷ es) s waiting = do s' ← callback m s; batch es s' waiting
  batch (error intr ∷ es) s waiting = batch es s false
  batch (error msg_overflow ∷ es) s waiting = batch es s false
  batch (error other ∷ es) s waiting = throw Exception.runtime_error
  batch (finish ∷ es) s waiting = batch es s false
  batch (ack ∷ es) s waiting = ok (s, false)

  -- `receive`, on all the batches that will ever come.
  unfoldable pub receive : List (List (Event M)) → S → Result S
  unfolding batch
  receive [] s = throw Exception.blocked
  receive (b ∷ bs) s = batch b s true >>= λ (s', waiting).
      let rest = receive bs s' in if waiting then rest else ok s'

  -- The callback over messages, in their order, until it throws.
  unfoldable pub fold_messages : List M → S → Result S
  fold_messages [] s = ok s
  fold_messages (m ∷ ms) s = do s' ← callback m s; fold_messages ms s'

-- What ends a receiving: no message that does, an end or an error that is let pass, or an error.
pub data Ending : Type 0 where
  never done failed : Ending

abbrev pub batch_messages : {M : Type 0} → List (Event M) → List M
batch_messages [] = []
batch_messages (valid m ∷ es) = m ∷ batch_messages es
batch_messages (error intr ∷ es) = batch_messages es
batch_messages (error msg_overflow ∷ es) = batch_messages es
batch_messages (error other ∷ es) = []
batch_messages (finish ∷ es) = batch_messages es
batch_messages (ack ∷ es) = []

abbrev pub batch_ending : {M : Type 0} → List (Event M) → Ending → Ending
batch_ending [] e = e
batch_ending (valid m ∷ es) e = batch_ending es e
batch_ending (error intr ∷ es) e = batch_ending es done
batch_ending (error msg_overflow ∷ es) e = batch_ending es done
batch_ending (error other ∷ es) e = failed
batch_ending (finish ∷ es) e = batch_ending es done
batch_ending (ack ∷ es) e = done

abbrev pub followed : {M : Type 0} → Ending → List M → List M × Ending → List M × Ending
followed never ms rest = (ms ++ rest.0, rest.1)
followed e ms rest = (ms, e)

-- The messages of an answer, and how it ends: the first batch with an end or an error is the last.
abbrev pub delivered : {M : Type 0} → List (List (Event M)) → List M × Ending
delivered [] = ([], never)
delivered (b ∷ bs) = followed (batch_ending b never) (batch_messages b) (delivered bs)

abbrev pub end_with : {S : Type 0} → Ending → S → Result S
end_with never s = throw Exception.blocked
end_with done s = ok s
end_with failed s = throw Exception.runtime_error

abbrev still : Ending → Bool
still never = true
still _ = false

abbrev closed : {S : Type 0} → Ending → S → Result (S × Bool)
closed failed s = throw Exception.runtime_error
closed e s = ok (s, still e)

abbrev IsOpen : Ending → Type 0
IsOpen failed = ⊥
IsOpen _ = Unit

module _ {M S : Type 0} (callback : M → S → Result S) where
  batch-fold :
      (b : List (Event M)) (s : S) (e : Ending)
      → IsOpen e
      → batch callback b s (still e)
        ≡ (fold_messages callback (batch_messages b) s >>= closed (batch_ending b e))
  unfolding batch fold_messages
  batch-fold [] s never h = refl
  batch-fold [] s done h = refl
  batch-fold [] s failed h = elim h [ ]
  batch-fold (valid m ∷ es) s e h =
      elim (callback m s)
        as (λ r.
          (r >>= λ s'. batch callback es s' (still e))
          ≡ ((r >>= fold_messages callback (batch_messages es)) >>= closed (batch_ending es e))) [
            | ok s' ↦ batch-fold es s' e h
            | throw x ↦ refl
          ]
  batch-fold (error intr ∷ es) s e h = batch-fold es s done tt
  batch-fold (error msg_overflow ∷ es) s e h = batch-fold es s done tt
  batch-fold (error other ∷ es) s e h = refl
  batch-fold (finish ∷ es) s e h = batch-fold es s done tt
  batch-fold (ack ∷ es) s e h = refl

  fold_messages-append :
      (ms ns : List M) (s : S)
      → fold_messages callback (ms ++ ns) s
        ≡ (fold_messages callback ms s >>= fold_messages callback ns)
  unfolding fold_messages
  fold_messages-append [] ns s = refl
  fold_messages-append (m ∷ ms) ns s =
      elim (callback m s)
        as (λ r.
          (r >>= fold_messages callback (ms ++ ns))
          ≡ ((r >>= fold_messages callback ms) >>= fold_messages callback ns)) [
            | ok s' ↦ fold_messages-append ms ns s'
            | throw x ↦ refl
          ]

  abbrev next_batch : List (List (Event M)) → S × Bool → Result S
  next_batch bs x = if x.1 then receive callback bs x.0 else ok x.0

  receive-followed :
      (ms : List M) (e : Ending) (bs : List (List (Event M))) (s : S)
      → ((s' : S)
          → receive callback bs s'
            ≡ (fold_messages callback (delivered bs).0 s' >>= end_with (delivered bs).1))
      → ((fold_messages callback ms s >>= closed e) >>= next_batch bs) ≡ (
          fold_messages callback (followed e ms (delivered bs)).0 s
          >>= end_with (followed e ms (delivered bs)).1)
  receive-followed ms done bs s ih =
      elim (fold_messages callback ms s)
        as (λ r. ((r >>= closed done) >>= next_batch bs) ≡ (r >>= end_with done)) [
          | ok s' ↦ refl
          | throw x ↦ refl
        ]
  receive-followed ms failed bs s ih =
      elim (fold_messages callback ms s)
        as (λ r. ((r >>= closed failed) >>= next_batch bs) ≡ (r >>= end_with failed)) [
          | ok s' ↦ refl
          | throw x ↦ refl
        ]
  receive-followed ms never bs s ih =
      rw (fold_messages-append ms (delivered bs).0 s)
        (elim (fold_messages callback ms s)
          as (λ r.
            ((r >>= closed never) >>= next_batch bs)
            ≡ ((r >>= fold_messages callback (delivered bs).0) >>= end_with (delivered bs).1)) [
              | ok s' ↦ ih s'
              | throw x ↦ refl
            ])

  -- Receiving gives the callback the messages of the answer in their order, until it throws, and
  -- then throws itself exactly if the answer ends with an error other than an interruption or an
  -- overflow. These two end it as its end does, and it is not repeated.
  pub receive-fold :
      (bs : List (List (Event M))) (s : S)
      → receive callback bs s
        ≡ (fold_messages callback (delivered bs).0 s >>= end_with (delivered bs).1)
  unfolding receive
  receive-fold [] s = unfold fold_messages in refl
  receive-fold (b ∷ bs) s =
      rw (batch-fold b s never tt)
        (receive-followed (batch_messages b) (batch_ending b never) bs s (receive-fold bs))

module _ {M S : Type 0} (callback : M → S → Result S) (P : S → Type 0) where
  fold_messages-Ensures :
      ((m : M) (s : S) → P s → Ensures P (callback m s))
      → (ms : List M) (s : S) → P s
      → Ensures P (fold_messages callback ms s)
  unfolding fold_messages
  fold_messages-Ensures step [] s h = h
  fold_messages-Ensures step (m ∷ ms) s h =
      >>=-Ensures P P (callback m s) (fold_messages callback ms) (step m s h)
        (λ s' h'. fold_messages-Ensures step ms s' h')

  end_with-Ensures : (e : Ending) (s : S) → P s → Ensures P (end_with e s)
  end_with-Ensures never s h = tt
  end_with-Ensures done s h = h
  end_with-Ensures failed s h = tt

  -- What the callback keeps holds when a receiving ends.
  pub receive-Ensures :
      ((m : M) (s : S) → P s → Ensures P (callback m s))
      → (bs : List (List (Event M))) (s : S) → P s
      → Ensures P (receive callback bs s)
  receive-Ensures step bs s h = rw (receive-fold callback bs s) (
      >>=-Ensures P P (fold_messages callback (delivered bs).0 s) (end_with (delivered bs).1)
        (fold_messages-Ensures step (delivered bs).0 s h) (end_with-Ensures (delivered bs).1))
