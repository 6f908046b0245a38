-- ===== src/Consumers/Data.antt =====
-- mq/consumers/message.go and the structs of group.go and subscription.go.
-- A pointer to a message body is a number, 0 for nil; an instant is an integer, 0 for time.Time{}.
-- A uint32 that the code uses as a flag (`closed`) is a Bool. A subscription's pointer to its group
-- is the group that its operations take. The channel `Commits` is a flag, whether it is set; what
-- is collected to be sent to it is part of an operation's result.
use eventter.Base.{ℕ, ◌-◌, ◌^◌, Bool, List, String, ◌==◌, ◌&&◌}
use eventter.Base.Int.{ℤ, pos}

pub record Message : Type 0 where
  pub topic_namespace : String
  pub topic_name : String
  pub segment_id : ℕ
  pub commit_offset : ℤ
  pub time : ℤ
  pub message : ℕ
  pub subscription_id : ℕ
  pub seq_no : ℕ

-- What `Reset` stores, and what `make` fills a slice with.
abbrev pub zero_message : Message
zero_message = record {
  topic_namespace = "";
  topic_name = "";
  segment_id = 0;
  commit_offset = pos 0;
  time = pos 0;
  message = 0;
  subscription_id = 0;
  seq_no = 0;
}

pub record Commit : Type 0 where
  pub segment_id : ℕ
  pub commit_offset : ℤ

-- `subscription_id` of a message that no subscription holds, and of one that has been acked.
abbrev pub ready : ℕ
ready = 2 ^ 64 - 1

abbrev pub ack_id : ℕ
ack_id = 0

abbrev pub zero_seq_no : ℕ
zero_seq_no = 0

pub record Group : Type 0 where
  pub n : ℕ
  pub messages : List Message
  pub read : ℕ
  pub write : ℕ
  pub closed : Bool
  pub commits : Bool

pub record Subscription : Type 0 where
  pub id : ℕ
  pub size : ℕ
  pub inflight : ℕ
  pub max_messages : ℕ
  pub blocking : Bool
  pub closed : Bool
  pub seq : ℕ

abbrev pub is_ready : Message → Bool
is_ready m = m.subscription_id == ready

abbrev pub is_acked : Message → Bool
is_acked m = m.subscription_id == ack_id

abbrev pub is_held : ℕ → Message → Bool
is_held id m = m.subscription_id == id

abbrev pub is_leased : ℕ → ℕ → Message → Bool
is_leased id seq m = m.subscription_id == id && m.seq_no == seq

-- The two assignments that end every change of a message's holder.
abbrev pub hold : ℕ → ℕ → Message → Message
hold id seq m = record m { subscription_id = id; seq_no = seq }

abbrev pub commit_of : Message → Commit
commit_of m = record { segment_id = m.segment_id; commit_offset = m.commit_offset }
