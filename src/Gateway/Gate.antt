-- ===== src/Gateway/Gate.antt =====
-- `AllowlistGate`: its construction from the roster, and what it does with a message.
use agent_keep.Base.{
  String, Bool, true, false, not, Option, none, some, List, [], ◌∷◌, Result, ok, err, concat,
  if◌then◌else◌,
}
use agent_keep.Base.Dict
use agent_keep.Base.Dict.{Dict}
use agent_keep.Audit.{AgentIdentity, AuditLog, Status, Event, append}
use agent_keep.Messages.{InternalMessage}
use agent_keep.Gateway.Principals.{normalize_roster_id}

pub data Policy : Type 0 where
  owner_only pairing tiered : Policy

pub data Tier : Type 0 where
  owner trusted guest : Tier

pub record AllowlistEntry : Type 0 where
  pub id : String
  pub tier : Tier

pub record GatewayAllowlist : Type 0 where
  pub policy : Policy
  pub roster : List AllowlistEntry

pub record AllowlistGate : Type 0 where
  pub policy : Policy
  pub roster : Dict Tier
  pub audit_sink : AuditLog
  pub identity : AgentIdentity

-- What the gate takes from Python: `str.strip`, and sha256 in hexadecimal digits.
pub record Host : Type 0 where
  pub strip : String → String
  pub sha256 : String → String

abbrev pub is_supported : Policy → Bool
is_supported owner_only = true
is_supported pairing = false
is_supported tiered = true

abbrev pub policy_name : Policy → String
policy_name owner_only = "owner-only"
policy_name pairing = "pairing"
policy_name tiered = "tiered"

abbrev pub tier_name : Tier → String
tier_name owner = "owner"
tier_name trusted = "trusted"
tier_name guest = "guest"

abbrev pub is_owner : Tier → Bool
is_owner owner = true
is_owner trusted = false
is_owner guest = false

-- The loop of the constructor over the roster; `err` is its `ValueError`.
unfoldable pub enroll :
    (String → String) → Dict Tier → List AllowlistEntry → Result String (Dict Tier)
enroll strip roster [] = ok roster
enroll strip roster (entry ∷ entries) =
    let principal = normalize_roster_id strip entry.id in
    let next = enroll strip (Dict.put roster principal entry.tier) entries in
    if Dict.has roster principal
    then err (
        concat (
          "gateway allowlist roster: entries collide on the normalized principal '" ∷ principal
          ∷ "' — remove or merge the duplicates" ∷ []))
    else next

abbrev pub with_roster :
    Policy → AuditLog → AgentIdentity → Result String (Dict Tier) → Result String AllowlistGate
with_roster policy sink identity (err e) = err e
with_roster policy sink identity (ok roster) =
    ok (record { policy = policy; roster = roster; audit_sink = sink; identity = identity })

-- `AllowlistGate.__init__`
unfoldable pub make_gate :
    Host → GatewayAllowlist → AuditLog → AgentIdentity → Result String AllowlistGate
make_gate host allowlist sink identity =
    if is_supported allowlist.policy
    then with_roster allowlist.policy sink identity (enroll host.strip [] allowlist.roster)
    else err (
        concat (
          "gateway allowlist policy '"
          ∷ policy_name allowlist.policy
          ∷ "' is not enforced (supported: ['owner-only', 'tiered'])"
          ∷ []))

-- `message.sender.platform_id` in an f-string.
abbrev pub shown_id : Option String → String
shown_id none = "None"
shown_id (some i) = i

unfoldable pub principal_of : InternalMessage → String
principal_of message =
    concat (message.channel.platform ∷ ":" ∷ shown_id message.sender.platform_id ∷ [])

abbrev pub reject_reason : Policy → Option Tier → String
reject_reason policy none = "sender not on roster"
reject_reason policy (some tier) =
    concat
      ("tier '" ∷ tier_name tier ∷ "' not admitted by policy '" ∷ policy_name policy ∷ "'" ∷ [])

unfoldable pub audit_reject :
    Host → AllowlistGate → InternalMessage → String → Option Tier → AllowlistGate
audit_reject host gate message principal tier =
    let reason = reject_reason gate.policy tier in
    record gate {
      audit_sink = append gate.audit_sink (record {
        agent = gate.identity;
        event = Event.gateway_reject;
        trigger = record {
          message_id = some message.id;
          trigger_id = none;
          purpose = concat (
              "gateway dropped " ∷ message.channel.platform
              ∷ " message from an unpermitted sender (" ∷ reason ∷ ")" ∷ []);
        };
        action = record {
          name = "gateway.allowlist";
          input_digest = concat ("sha256:" ∷ host.sha256 principal ∷ []);
          input_summary =
              concat
                ("sender " ∷ principal ∷ " on " ∷ message.channel.platform ∷ ": " ∷ reason ∷ []);
        };
        outcome = record { status = Status.denied; output_digest = none };
        approval = none;
        cost = none;
      });
    }

-- `self._policy != "owner-only" or tier == "owner"`, of a sender on the roster.
abbrev pub suffices : Policy → Tier → Bool
suffices owner_only tier = is_owner tier
suffices pairing tier = true
suffices tiered tier = true

abbrev pub is_admitted : Policy → Option Tier → Bool
is_admitted policy none = false
is_admitted policy (some tier) = suffices policy tier

abbrev pub resolved : InternalMessage → String → InternalMessage
resolved message principal = record message {
  sender = record message.sender { internal_user_id = some principal };
}

unfoldable pub admit :
    Host → AllowlistGate → InternalMessage → AllowlistGate × Option InternalMessage
admit host gate message =
    let principal = principal_of message in
    let tier = Dict.get gate.roster principal in
    if not (is_admitted gate.policy tier)
    then (audit_reject host gate message principal tier, none)
    else (gate, some (resolved message principal))
