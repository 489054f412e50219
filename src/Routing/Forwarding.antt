-- ===== src/Routing/Forwarding.antt =====
-- routing/Routing.cpp: the frames that the handler of a PANN sends.
use fbmeshd.Prelude.{
  ℕ, ◌+◌, ◌<◌, ◌≡◌, ◌≢◌, ◌⊎◌, inl, inr, Bool, true, false, some, List, arith, nat_eq, All,
  All-append, All-map,
}
use fbmeshd.Routing.{Pann, Config, Routing, Send, u8, is_station_in_top_k_gates}
use fbmeshd.Routing.Process.{
  resolve, hwmp_pann_frame_process, opened, stored, reply, forward, accept,
}
use fbmeshd.Routing.Table.{Heard, Outcome, ignored, dropped, accepted, process-Outcome}

-- A reply to the originator, in the node's own name, which asks for no reply.
pub record IsReply (c : Config) (sa : ℕ) (pann : Pann) (after : Routing) (m : Send) : Type 0 where
  pub asked : pann.reply_requested ≡ true
  pub back : m.0 ≡ sa
  pub own : m.1.orig_addr ≡ c.node_addr
  pub numbered : m.1.orig_sn ≡ after.sn
  pub aimed : m.1.target_addr ≡ pann.orig_addr
  pub final : m.1.reply_requested ≡ false

-- The announcement itself, one hop on.
pub record IsForward (c : Config) (t0 : ℕ) (stas : List (ℕ × ℕ)) (sa : ℕ) (pann : Pann)
    (s : Routing) (m : Send) : Type 0 where
  pub alive : 0 < m.1.ttl
  pub aged : m.1.ttl + 1 ≡ pann.ttl
  pub hops : m.1.hop_count ≡ u8 (pann.hop_count + 1)
  pub same_orig : m.1.orig_addr ≡ pann.orig_addr
  pub same_sn : m.1.orig_sn ≡ pann.orig_sn
  pub foreign : m.1.orig_addr ≢ c.node_addr
  pub not_here : m.1.target_addr ≢ c.node_addr
  pub route : resolve c t0 m.1.target_addr s ≡ some m.0

module _ (c : Config) (t0 t1 : ℕ) (stas : List (ℕ × ℕ)) (sa : ℕ) (pann : Pann) (s : Routing) where
  reply-All : (s1 : Routing) → All (IsReply c sa pann (reply c sa pann s1).0) (reply c sa pann s1).1
  unfolding reply
  reply-All s1 = ground arith

  forward-All :
      (h : Heard c t0 stas sa pann s) (old : Bool) (s1 : Routing)
      → All (IsForward c t0 stas sa pann s) (forward c t1 h.da h.last_hop pann old s1)
  unfolding forward
  forward-All h old s1 = ground (arith, h.foreign, h.resolved)

  accept-sends :
      (h : Heard c t0 stas sa pann s)
      → All
          (λ m.
            IsReply c sa pann (accept c t0 t1 sa h.da h.last_hop pann s).0 m
            ⊎ IsForward c t0 stas sa pann s m)
          (accept c t0 t1 sa h.da h.last_hop pann s).1
  unfolding accept
  accept-sends h =
      let s1 = stored c t0 t1 sa h.last_hop pann s in
      let old = is_station_in_top_k_gates t1 pann.orig_addr (opened c t0 pann s) in
      let s2 = (reply c sa pann s1).0 in
      All-append _ (reply c sa pann s1).1 (forward c t1 h.da h.last_hop pann old s2)
        (All-map (λ m p. inl p) _ (reply-All s1)) (All-map (λ m p. inr p) _ (forward-All h old s2))

  Outcome-sends :
      (r : Routing × List Send)
      → Outcome c t0 t1 stas sa pann s r
      → All (λ m. IsReply c sa pann r.0 m ⊎ IsForward c t0 stas sa pann s m) r.1
  Outcome-sends r (ignored q) = rw q tt
  Outcome-sends r (dropped h d q) = rw q tt
  Outcome-sends r (accepted h d q) = rw q (accept-sends h)

  -- Whatever frame arrives, each frame that the handler sends is of one of two kinds. It is a reply,
  -- sent to the neighbour because the frame asks for one, in the node's name under its newest
  -- sequence number, and asks for none itself. Or it is the announcement passed on: of another node,
  -- under the same sequence number, with one hop more and one less to live but still some, not meant
  -- for this node, and sent to where the target is reached.
  pub process-sends :
      All
        (λ m.
          IsReply c sa pann (hwmp_pann_frame_process c t0 t1 stas sa pann s).0 m
          ⊎ IsForward c t0 stas sa pann s m)
        (hwmp_pann_frame_process c t0 t1 stas sa pann s).1
  process-sends = Outcome-sends _ (process-Outcome c t0 t1 stas sa pann s)
