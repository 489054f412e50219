-- ===== src/Netlink.antt =====
-- rnl/NetlinkMessage.cpp and .h: `NetlinkProtocolSocket`, the queue of requests to the kernel and
-- the answers to them.
--
-- A request is known by the number of its promise. What the promises of a socket have got is the
-- list `answers`, and what has gone to `sendmsg` is `sent`; the code keeps neither. Whether a call of
-- `sendmsg` succeeds is a parameter, a function of the messages. The members run on one event loop,
-- so that each is one step.
pub mod Receive
pub mod Requests
pub mod Attributes
pub mod NextHops
pub mod RouteMessage
pub mod AddrMessage
pub mod Bounds
pub mod Calls
pub mod Labels
mod Examples
pub mod Layout
pub mod Space
pub mod Order
pub mod Steps
pub mod Line
pub mod Quiet
pub mod Reached
pub mod Places
pub mod Answers
pub mod Whole
use fbmeshd.Prelude.{
  ℕ, zero, suc, ◌+◌, ◌-◌, ◌*◌, ◌%◌, ◌^◌, min, Bool, true, false, not, ◌&&◌, ◌||◌, Option, none,
  some, List, [], ◌∷◌, ◌++◌, ◌==◌, ltb, if◌then◌else◌, length, nat_eq,
}
use fbmeshd.Prelude.Dict.{find, erase, emplace, contains}
use fbmeshd.Prelude.Int.{ℤ, pos}

-- `NetlinkMessage::MessageType`, with one for a message whose type nobody sets.
pub data MessageType : Type 0 where
  get_all_addrs : MessageType
  add_addr : MessageType
  del_addr : MessageType
  other_type : MessageType

pub record NetlinkMessage : Type 0 where
  pub promise : ℕ
  pub message_type : MessageType

-- What a promise gets: a status, or its end without one.
pub data Answer : Type 0 where
  status : ℤ → Answer
  broken : Answer

pub record Socket : Type 0 where
  pub msg_queue : List NetlinkMessage
  pub is_timer_scheduled : Bool
  pub errors : ℕ
  pub acks : ℕ
  pub last_seq_no : ℕ
  pub seq_no_map : List (ℕ × NetlinkMessage)
  pub sequence_number : ℕ
  pub pid : ℕ
  pub answers : List (ℕ × Answer)
  pub sent : List (ℕ × NetlinkMessage)

-- A new socket; `last` is the value of `lastSeqNo_`, which no constructor sets.
abbrev pub new_socket : ℕ → ℕ → Socket
new_socket last pid = record {
  msg_queue = [];
  is_timer_scheduled = false;
  errors = 0;
  acks = 0;
  last_seq_no = last;
  seq_no_map = [];
  sequence_number = 0;
  pid = pid;
  answers = [];
  sent = [];
}

abbrev pub max_nl_message_queue : ℕ
max_nl_message_queue = 126001

abbrev pub max_iov_msg : ℕ
max_iov_msg = 500

-- A 32-bit counter.
abbrev pub increment : ℕ → ℕ
increment n = (n + 1) % 2 ^ 32

abbrev pub answer : ℕ → Answer → Socket → Socket
answer p a s = record s { answers = (p, a) ∷ s.answers }

-- `nlSeqNoMap_.insert`: a taken sequence number keeps its request, and the new one is dropped.
unfoldable pub file : ℕ → NetlinkMessage → Socket → Socket
file seq m s =
    if contains seq s.seq_no_map
    then answer m.promise broken s
    else record s { seq_no_map = emplace seq m s.seq_no_map }

-- The loop that takes messages from the queue, at most as many as are left.
unfoldable pub fill : ℕ → List NetlinkMessage → Socket → Socket
unfolding file
fill zero queue s = record s { msg_queue = queue }
fill (suc n) [] s = record s { msg_queue = [] }
fill (suc n) (m ∷ queue) s =
    let seq = increment s.sequence_number in
    fill n queue (file seq m (record s { sequence_number = seq; sent = s.sent ++ (seq, m) ∷ [] }))

-- The messages of one `sendmsg`, which are the last of the sent ones.
abbrev pub batch : ℕ → List NetlinkMessage → List (ℕ × NetlinkMessage)
batch seq [] = []
batch seq (m ∷ queue) = (increment seq, m) ∷ batch (increment seq) queue

abbrev pub taken : ℕ → List NetlinkMessage → List NetlinkMessage
taken zero queue = []
taken (suc n) [] = []
taken (suc n) (m ∷ queue) = m ∷ taken n queue

-- The loop of `addNetlinkMessage`. The messages it leaves out are destroyed with their promises.
unfoldable pub drop_all : List NetlinkMessage → Socket → Socket
drop_all [] s = s
drop_all (m ∷ messages) s = drop_all messages (answer m.promise broken s)

unfoldable pub enqueue : ℕ → List NetlinkMessage → Socket → Socket
unfolding drop_all
enqueue queue_size [] s = s
enqueue queue_size (m ∷ messages) s =
    let rest = enqueue (suc queue_size) messages (record s { msg_queue = s.msg_queue ++ m ∷ [] }) in
    if ltb (suc queue_size) max_nl_message_queue then rest else drop_all (m ∷ messages) s

unfoldable pub answer_request : ℕ → ℤ → Option NetlinkMessage → Socket → Socket
answer_request seq value none s = s
answer_request seq value (some m) s =
    answer m.promise (status value) (record s { seq_no_map = erase seq s.seq_no_map })

-- `setReturnStatusValue`: nothing without a request of the number.
unfoldable pub set_return_status_value : ℕ → ℤ → Socket → Socket
unfolding answer_request
set_return_status_value seq value s = answer_request seq value (find seq s.seq_no_map) s

module _ (sendmsg : List (ℕ × NetlinkMessage) → Bool) where
  unfoldable pub send_netlink_message : Socket → Socket
  unfolding fill
  send_netlink_message s =
      let iov_size = min (length s.msg_queue) max_iov_msg in
      let iov = batch s.sequence_number (taken iov_size s.msg_queue) in
      let filled = fill iov_size s.msg_queue s in
      if iov_size == 0 then s else record filled {
        last_seq_no = filled.sequence_number;
        errors = if sendmsg iov then filled.errors else increment filled.errors;
        is_timer_scheduled = true;
      }

  -- The callback of `nlMessageTimer_`.
  unfoldable pub on_message_timer : Socket → Socket
  unfolding send_netlink_message
  on_message_timer s = send_netlink_message (record s { is_timer_scheduled = false })

  unfoldable pub process_ack : ℕ → Socket → Socket
  unfolding send_netlink_message
  process_ack ack s =
      if ack == s.last_seq_no
      then send_netlink_message (record s { is_timer_scheduled = false })
      else s

  unfoldable pub add_netlink_message : List NetlinkMessage → Socket → Socket
  unfolding enqueue send_netlink_message
  add_netlink_message messages s =
      let t = enqueue (length s.msg_queue) messages s in
      if not t.is_timer_scheduled then send_netlink_message t else t
