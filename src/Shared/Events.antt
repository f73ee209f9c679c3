-- ===== src/Shared/Events.antt =====
-- src/pyiamkit/shared/events.py: what an aggregate records. The random `event_id` is left out.
use Prim.Native.String.{String}
use pyiamkit.Prelude.{ℕ, Bool, List, Option, none, some, Text}
use pyiamkit.Shared.Time.{DateTime}

-- The values that stand in an event's metadata: `str` of an identifier, a text, a flag, `None`.
pub data MetaValue : Type 0 where
  id : ℕ → MetaValue
  text : Text → MetaValue
  label : String → MetaValue
  flag : Bool → MetaValue
  moment : DateTime → MetaValue
  null : MetaValue

-- `None if value is None else str(value)`.
abbrev pub id_or_null : Option ℕ → MetaValue
id_or_null none = MetaValue.null
id_or_null (some n) = MetaValue.id n

-- `event_type` is a member of the bounded context's enumeration of event types.
pub record DomainEvent (K : Type 0) : Type 0 where
  pub event_type : K
  pub occurred_at : DateTime
  pub metadata : List (String × MetaValue)
