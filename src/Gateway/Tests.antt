-- ===== src/Gateway/Tests.antt =====
-- A roster, and the theorems about the gate at work on it.
use agent_keep.Base.{true, ◌≡◌, ◌⊎◌, refl, none, some, [], ◌∷◌}
use agent_keep.Base.Dict
use agent_keep.Audit.{AgentIdentity}
use agent_keep.Messages.{InternalMessage, human}
use agent_keep.Gateway.Principals.{normalize_roster_id, partition, has_at, ascii_lower, lower_char}
use agent_keep.Gateway.Gate.{
  owner_only, owner, guest, GatewayAllowlist, AllowlistGate, Host, enroll, make_gate, principal_of,
  resolved, admit,
}
use agent_keep.Gateway.Admission.{IsPermitted, Rejects, admit_decides}

abbrev host : Host
host = record { strip = λ s. s; sha256 = λ s. s }

abbrev identity : AgentIdentity
identity = record { slug = "scribe"; spec_version = "1"; image_digest = "sha256:0" }

abbrev allowlist : GatewayAllowlist
allowlist = record {
  policy = owner_only;
  roster =
      record { id = "webex:Ada@x.org"; tier = owner }
      ∷ record { id = "slack:U7"; tier = guest }
      ∷ [];
}

abbrev gate : AllowlistGate
gate = record {
  policy = owner_only;
  roster = ("webex:ada@x.org", owner) ∷ ("slack:U7", guest) ∷ [];
  audit_sink = [];
  identity = identity;
}

abbrev message : InternalMessage
message = record {
  id = "m1";
  ts = "now";
  channel = record { platform = "slack"; conversation_id = "room" };
  sender = record {
    kind = human;
    platform_id = some "U7";
    internal_user_id = none;
    verified = true;
  };
  content = [];
  provenance = record { adapter = "slack"; trust = "untrusted" };
}

admit_example :
    (IsPermitted host allowlist message
      × (admit host gate message ≡ (gate, some (resolved message (principal_of message)))))
    ⊎ ((¬ IsPermitted host allowlist message)
        × ((admit host gate message).1 ≡ none)
        × Rejects gate message (admit host gate message).0)
unfolding make_gate enroll normalize_roster_id partition has_at ascii_lower lower_char Dict.get
    Dict.put
admit_example = admit_decides host allowlist [] identity gate message refl
