-- ===== src/Mesh/Answered.antt =====
-- 802.11s/Nl80211Handler.cpp: making and deleting an interface, with a driver that answers.

use fbmeshd.Prelude.{
  ℕ, ◌≡◌, ◌≢◌, refl, Bool, true, false, Option, none, some, List, [], ◌∷◌, ◌++◌, ◌==◌, Bool-cases,
  inl, inr, nat_eq, if◌then◌else◌,
}
use fbmeshd.Prelude.Dict.{is_some}
use fbmeshd.Mesh.{Bytes, ok, is_null, attribute}
use fbmeshd.Mesh.Messages.{Message, Attribute, Attributes, Command}
use fbmeshd.Mesh.Socket.{
  Ending, never, done, failed, delivered, fold_messages, end_with, receive-fold,
}
use fbmeshd.Mesh.Handler.{
  NetInterface, Nl80211Handler, Driver, World, lift, pure, in_kernel, send, send_and_receive,
}
use fbmeshd.Mesh.Wiphy.{any}
use fbmeshd.Mesh.Links.{
  netif_from_phy, delete_interface, create_interface, is_valid, request, on_new_interface,
}
use fbmeshd.Mesh.Softly.{Softly, continue-Softly}

-- The answer comes to an end.
abbrev pub IsEnded : Ending → Type 0
IsEnded never = ⊥
IsEnded e = Unit

-- The answer has the address of the new interface, or ends with an error.
abbrev pub HasAddress : List Attributes × Ending → Type 0
HasAddress (ms, failed) = Unit
HasAddress (ms, e) = any (λ tb. is_some tb.mac) ms ≡ true

-- Every answer of the driver ends, and that to NEW_INTERFACE has an address.
pub record IsAnswering {K : Type 0} (d : Driver K) : Type 0 where
  pub ends : (m : Message) (k : K) → IsEnded (delivered (d.exchange m k).0).1
  pub address :
      (as' : List Attribute) (k : K)
      → HasAddress (delivered (d.exchange (request Command.new_interface as') k).0)

module _ {K : Type 0} where
  -- A receiving from an ended answer, of which the messages give a value.
  end_with-Softly :
      {S : Type 0} (P : S → World K → Type 0) (e : Ending) (s : S) (w : World K)
      → IsEnded e
      → P s w
      → Softly P (end_with e s, w)
  end_with-Softly P never s w h hs = elim h [ ]
  end_with-Softly P done s w h hs = hs
  end_with-Softly P failed s w h hs = tt

-- The callback that ignores the messages never throws.
fold_messages-ignore :
    {M : Type 0} (ms : List M) → fold_messages (λ (_ : M) (s : Unit {0}). ok s) ms tt ≡ ok tt
unfolding fold_messages
fold_messages-ignore [] = refl
fold_messages-ignore (m ∷ ms) = fold_messages-ignore ms

module _ {K : Type 0} (d : Driver K) where
  -- The callback for the address keeps the last one.
  abbrev KeepsAddress : List Attributes → Option Bytes → Type 0
  KeepsAddress ms o =
      (r : Option Bytes) × (fold_messages (on_new_interface d) ms o ≡ ok r)
      × (is_some o ≡ true → is_some r ≡ true)
      × (any (λ tb. is_some tb.mac) ms ≡ true → is_some r ≡ true)

  fold_messages-KeepsAddress : (ms : List Attributes) (o : Option Bytes) → KeepsAddress ms o
  unfolding fold_messages
  fold_messages-KeepsAddress [] o = (o, refl, λ h. h, λ h. cc)
  fold_messages-KeepsAddress (tb ∷ ms) o =
      elim tb.mac
        as (λ mac.
          (r : Option Bytes) × (fold_messages (on_new_interface d) ms
              (if is_null mac then o else mac)
            ≡ ok r)
          × (is_some o ≡ true → is_some r ≡ true)
          × ((if is_some mac then true else any (λ tb. is_some tb.mac) ms) ≡ true
              → is_some r ≡ true)) [
                | none ↦ fold_messages-KeepsAddress ms o
                | some a ↦
                    let rest = fold_messages-KeepsAddress ms (some a) in
                    (rest.0, rest.1, λ h. rest.2 refl, λ h. rest.2 refl)
              ]

  -- These calls leave the handler as it is.
  module _ (answers : IsAnswering d) (hd : Nl80211Handler) where
    abbrev Keeps : {A : Type 0} → A → World K → Type 0
    Keeps a w = w.handler ≡ hd

    send-Softly : (m : Message) (w : World K) → w.handler ≡ hd → Softly Keeps (send d m w)
    unfolding send send_and_receive
    send-Softly m w h =
        let answer = delivered (d.exchange m w.kernel).0 in
        let w' = record w { kernel = (d.exchange m w.kernel).1; sent = w.sent ++ m ∷ [] } in
        rw (receive-fold (λ (_ : Attributes) (s : Unit {0}). ok s) (d.exchange m w.kernel).0 tt) (
          rw (fold_messages-ignore answer.0)
            (end_with-Softly Keeps answer.1 tt w' (answers.ends m w.kernel) h))

    pub delete_interface-Softly :
        (name : Bytes) (w : World K)
        → name ≢ []
        → w.handler ≡ hd
        → Softly Keeps (delete_interface d name w)
    unfolding delete_interface
    delete_interface-Softly [] w some_name h = absurd (some_name refl)
    delete_interface-Softly (c ∷ s) w some_name h =
        elim (Bool-cases (d.if_nametoindex (c ∷ s) w.kernel == 0)) [
          | inl e ↦ rw e h
          | inr e ↦ rw e (send-Softly _ w h)
        ]

    abbrev KeepsAndGives : {A : Type 0} → Option A → World K → Type 0
    KeepsAndGives a w = (is_some a ≡ true) × (w.handler ≡ hd)

    given-Softly :
        (ms : List Attributes) (e : Ending) (r : Option Bytes) (w : World K)
        → IsEnded e
        → HasAddress (ms, e)
        → (any (λ tb. is_some tb.mac) ms ≡ true → is_some r ≡ true)
        → w.handler ≡ hd
        → Softly KeepsAndGives (end_with e r, w)
    given-Softly ms never r w ended has gives h = elim ended [ ]
    given-Softly ms done r w ended has gives h = (gives has, h)
    given-Softly ms failed r w ended has gives h = tt

    attribute-Softly :
        {A : Type 0} (o : Option A) (w : World K)
        → KeepsAndGives o w
        → Softly Keeps (lift (attribute o) w)
    attribute-Softly none w h = let wrong = h.0 in cc
    attribute-Softly (some a) w h = h.1

    request-Softly :
        (as' : List Attribute) (w : World K)
        → w.handler ≡ hd
        → Softly KeepsAndGives
            (send_and_receive d (on_new_interface d) (request Command.new_interface as') none w)
    unfolding send_and_receive
    request-Softly as' w h =
        let m = request Command.new_interface as' in
        let answer = delivered (d.exchange m w.kernel).0 in
        let w' = record w { kernel = (d.exchange m w.kernel).1; sent = w.sent ++ m ∷ [] } in
        let kept = fold_messages-KeepsAddress answer.0 none in
        rw (receive-fold (on_new_interface d) (d.exchange m w.kernel).0 none) (
          rw (kept.1) (
            given-Softly answer.0 answer.1 kept.0 w' (answers.ends m w.kernel)
              (answers.address as' w.kernel) kept.3 h))

    mtu-Softly :
        (b : Bool) (name : Bytes) (mtu : ℕ) (w : World K)
        → w.handler ≡ hd
        → Softly Keeps ((if b then pure tt else in_kernel (d.set_mtu name mtu)) w)
    mtu-Softly true name mtu w h = h
    mtu-Softly false name mtu w h = h

    pub create_interface-Softly :
        (mtu phy : ℕ) (n : NetInterface) (name : Bytes) (w : World K)
        → netif_from_phy phy w ≡ (ok n, w)
        → is_valid n ≡ true
        → n.maybe_if_name ≡ some name
        → w.handler ≡ hd
        → Softly Keeps (create_interface d mtu phy w)
    unfolding create_interface
    create_interface-Softly mtu phy n name w has valid named h = rw has (
        rw valid (
          rw named (
            continue-Softly KeepsAndGives Keeps (send_and_receive d (on_new_interface d) _ none w) _
              (request-Softly _ w h)
              λ a w1 h1.
                continue-Softly Keeps Keeps
                  ((if mtu == 1500 then pure tt else in_kernel (d.set_mtu name mtu)) w1) _
                  (mtu-Softly (mtu == 1500) name mtu w1 h1.1)
                  λ _ w2 h2. attribute-Softly a w2 (h1.0, h2))))
