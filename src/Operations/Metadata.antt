-- ===== src/Operations/Metadata.antt =====
-- src/pyiamkit/operations/mutations.py: the readers of an event's metadata. Identifiers and moments that
-- metadata hold as texts are read by the standard library.
use Prim.Native.String.{String}
use pyiamkit.Prelude.{
  ℕ, Option, none, some, List, [], ◌∷◌, Result, ok, err, Text, strip, nonempty, codes, text_beq,
  if◌then◌else◌,
}
use pyiamkit.Shared.{DateTime, Zone, DomainEvent, MetaValue, id_text}
use pyiamkit.Authorization.Values.{AuthorizationError, value_error}
use pyiamkit.Operations.Effects.{EventType}

-- `astimezone(UTC)` of a moment with a zone.
abbrev pub to_utc : DateTime → DateTime
to_utc t = record t { zone = Zone.utc }

-- `event.metadata.get(key)`.
abbrev pub find_meta : String → List (String × MetaValue) → Option MetaValue
find_meta key [] = none
find_meta key ((k, v) ∷ m) = if text_beq (codes key) (codes k) then some v else find_meta key m

-- The standard library's readers of texts, `UUID` and `datetime.fromisoformat`.
pub record Readers : Type 0 where
  pub parse_id : Text → Option ℕ
  pub parse_moment : Text → Option DateTime

module _ (readers : Readers) where
  -- A text must not be blank, and must be an identifier.
  abbrev read_id : Text → Result AuthorizationError ℕ
  read_id t =
      if nonempty (strip t)
      then elim (readers.parse_id t) [ none ↦ err value_error | some n ↦ ok n ]
      else err value_error

  -- `IdentityId.parse(_required_text(...))`: what `str` made of an identifier is read back.
  abbrev id_value : Option MetaValue → Result AuthorizationError ℕ
  id_value (some (MetaValue.id n)) = ok n
  id_value (some (MetaValue.text t)) = read_id t
  id_value (some (MetaValue.label s)) = read_id (codes s)
  id_value _ = err value_error

  -- `_identity_id` and `_tenant_id`, by the key.
  unfoldable pub required_id : String → DomainEvent EventType → Result AuthorizationError ℕ
  required_id key e = id_value (find_meta key e.metadata)

  abbrev tenant_value : Option MetaValue → Result AuthorizationError (Option ℕ)
  tenant_value none = ok none
  tenant_value (some MetaValue.null) = ok none
  tenant_value (some (MetaValue.id n)) = ok (some n)
  tenant_value (some (MetaValue.text t)) = elim (read_id t) [ ok n ↦ ok (some n) | err e ↦ err e ]
  tenant_value (some (MetaValue.label s)) = elim (read_id (codes s)) [
    | ok n ↦ ok (some n)
    | err e ↦ err e
  ]
  tenant_value _ = err value_error

  unfoldable pub optional_tenant_id : DomainEvent EventType → Result AuthorizationError (Option ℕ)
  optional_tenant_id e = tenant_value (find_meta "tenant_id" e.metadata)

  abbrev text_value : Option MetaValue → Result AuthorizationError Text
  text_value (some (MetaValue.id n)) = ok (id_text n)
  text_value (some (MetaValue.text t)) = if nonempty (strip t) then ok t else err value_error
  text_value (some (MetaValue.label s)) =
      if nonempty (strip (codes s)) then ok (codes s) else err value_error
  text_value _ = err value_error

  -- `_required_text`, which only an event that revokes something needs.
  unfoldable pub required_text :
      Option String → String → DomainEvent EventType → Result AuthorizationError Text
  required_text none key e = ok []
  required_text (some name) key e = text_value (find_meta key e.metadata)

  abbrev read_moment : Option DateTime → Result AuthorizationError (Option DateTime)
  read_moment none = err value_error
  read_moment (some t) = elim t.zone [ Zone.naive ↦ err value_error | _ ↦ ok (some (to_utc t)) ]

  -- A moment in metadata is its `isoformat()`.
  abbrev moment_value : Option MetaValue → Result AuthorizationError (Option DateTime)
  moment_value (some (MetaValue.moment t)) = read_moment (some t)
  moment_value (some (MetaValue.text t)) =
      if nonempty (strip t) then read_moment (readers.parse_moment t) else err value_error
  moment_value _ = err value_error

  -- `_required_datetime`, which only `SessionRevoked` needs.
  unfoldable pub required_datetime :
      Option String → String → DomainEvent EventType → Result AuthorizationError (Option DateTime)
  required_datetime none key e = ok none
  required_datetime (some name) key e = moment_value (find_meta key e.metadata)
