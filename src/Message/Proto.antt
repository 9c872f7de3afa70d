-- ===== src/Message/Proto.antt =====
-- What the repository calls of the protobuf runtime, which it does not contain: timestamps
-- (timestamppb) and `proto.CloneOf`.
use sap.Base.{◌*◌, ◌≡◌, refl, Option, none, some, Bool, false}
use sap.Base.Int.{ℤ, pos, negsuc, ◌==◌}
use sap.Message.Attributes.{Attribute}

-- An instant in nanoseconds since the zero value of time.Time, 0001-01-01T00:00:00Z.
abbrev pub Time : Type 0
Time = ℤ

abbrev pub zero_time : Time
zero_time = pos 0

-- `Time.IsZero`
abbrev pub is_zero : Time → Bool
is_zero (pos n) = n == 0
is_zero (negsuc n) = false

-- 1970-01-01T00:00:00Z.
abbrev pub unix_epoch : Time
unix_epoch = pos (62135596800 * 1_000_000_000)

pub record Proto : Type 1 where
  pub Timestamp : Type 0
  -- `timestamppb.New`
  pub new_timestamp : Time → Timestamp
  -- `(*Timestamp).AsTime`, whose receiver may be nil
  pub as_time : Option Timestamp → Time
  -- `proto.CloneOf` of an attribute
  pub clone_of : Attribute → Attribute

-- The documented behaviour of those calls.
pub record IsProto (p : Proto) : Type 0 where
  pub as_time-new_timestamp : (t : Time) → p.as_time (some (p.new_timestamp t)) ≡ t
  pub as_time-nil : p.as_time none ≡ unix_epoch
  pub clone_of-eq : (a : Attribute) → p.clone_of a ≡ a

-- A runtime whose timestamps are the instants themselves.
abbrev pub plain_as_time : Option Time → Time
plain_as_time none = unix_epoch
plain_as_time (some t) = t

abbrev pub plain : Proto
plain = record {
  Timestamp = Time;
  new_timestamp = λ t. t;
  as_time = plain_as_time;
  clone_of = λ a. a;
}

pub plain-IsProto : IsProto plain
plain-IsProto = record {
  as_time-new_timestamp = λ t. refl;
  as_time-nil = refl;
  clone_of-eq = λ a. refl;
}
