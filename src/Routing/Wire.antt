-- ===== src/Routing/Wire.antt =====
-- routing/Routing.cpp: the bytes of a packet, which are a type and a serialized frame, and
-- `receivePacket`. The compact serializer of thrift is a parameter.
use fbmeshd.Prelude.{ℕ, Option, none, some, List, [], ◌∷◌, ◌==◌, if◌then◌else◌}
use fbmeshd.Routing.{Pann, Config, Routing, Send}
use fbmeshd.Routing.Process.{hwmp_pann_frame_process}

-- `deserialize` yields no frame where the serializer throws.
pub record Serializer : Type 0 where
  pub serialize : Pann → List ℕ
  pub deserialize : List ℕ → Option Pann

abbrev pub pann_type : ℕ
pann_type = 0

-- The buffer that `txPannFrame` hands to the callback.
pub packet : Serializer → Pann → List ℕ
packet z f = pann_type ∷ z.serialize f

pub data Received : Type 0 where
  done : Routing × List Send → Received
  throws : Received
  reads_past_the_end : Received

abbrev pub or_throw : Option Pann → (Pann → Routing × List Send) → Received
or_throw none k = throws
or_throw (some f) k = done (k f)

pub receive_packet : Serializer → Config → ℕ → ℕ → List (ℕ × ℕ) → ℕ → List ℕ → Routing → Received
receive_packet z c t0 t1 stas sa [] s = reads_past_the_end
receive_packet z c t0 t1 stas sa (action ∷ bytes) s =
    if action == pann_type
    then or_throw (z.deserialize bytes) (λ f. hwmp_pann_frame_process c t0 t1 stas sa f s)
    else done (s, [])
