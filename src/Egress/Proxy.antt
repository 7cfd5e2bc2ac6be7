-- ===== src/Egress/Proxy.antt =====
-- keep_egress/records.py and proxy.py: the audit record of an attempt, what one connection does, and
-- the connection slots. A connection is read off from what the network does to it: the head that the
-- client sent (read as Head says), whether the target could be
-- reached, whether the first write after that went through, and the bytes relayed.
use agent_keep.Base.{
  ℕ, ◌+◌, ◌-◌, String, Bool, true, false, Option, none, some, List, [], ◌∷◌, ◌++◌, leb, str_eq,
  if◌then◌else◌,
}
use agent_keep.Egress.Text.{Text}
use agent_keep.Egress.Match.{match_allowlist}

pub record ObservedAgent : Type 0 where
  pub slug : String
  pub spec_version : String

pub data Action : Type 0 where
  connect open_tunnel : Action

pub data Verdict : Type 0 where
  allowed denied : Verdict

-- `INVALID_TARGET`, or the host and port of the attempt.
pub data Target : Type 0 where
  invalid : Target
  target : Text → ℕ → Target

pub record EgressAuditRecord : Type 0 where
  pub agent : ObservedAgent
  pub action : Action
  pub target : Target
  pub verdict : Verdict
  pub matched_entry : Option Text
  pub bytes_up : ℕ
  pub bytes_down : ℕ
  pub connection_id : String

pub data Kind : Type 0 where
  connect_kind absolute_kind : Kind

-- Of `_ParsedRequest` what the enforcement reads; the length of its rewritten head is counted.
pub record ParsedRequest : Type 0 where
  pub kind : Kind
  pub host : Text
  pub port : ℕ
  pub head_length : ℕ

-- What reading the head came to: `None`, an exception of the parser, or a request.
pub data Received : Type 0 where
  unreadable head_raised : Received
  received : ParsedRequest → Received

-- `asyncio.open_connection`: a connection, an `OSError`, or another exception.
pub data Upstream : Type 0 where
  connected unreachable broken : Upstream

-- What the network does to one connection.
pub record Network : Type 0 where
  pub upstream : Upstream
  pub first_write : Bool
  pub relayed_up : ℕ
  pub relayed_down : ℕ

-- What `_proxy_connection` did: the status answered by the proxy itself, whether it turned to the
-- target, the records appended on the way, and the record returned (`none` if it raised).
pub record Attempt : Type 0 where
  pub answered : Option ℕ
  pub contacted : Bool
  pub opened : List EgressAuditRecord
  pub returned : Option EgressAuditRecord

pub record Config : Type 0 where
  pub allowlist : List Text
  pub agent : ObservedAgent
  pub max_connections : ℕ

-- `_record`
unfoldable pub make_record :
    Config → Target → Verdict → Option Text → ℕ → ℕ → Action → String → EgressAuditRecord
make_record c t verdict matched up down action connection_id = record {
  agent = c.agent;
  action = action;
  target = t;
  verdict = verdict;
  matched_entry = matched;
  bytes_up = up;
  bytes_down = down;
  connection_id = connection_id;
}

abbrev pub target_of : ParsedRequest → Target
target_of request = target request.host request.port

-- Connected: a CONNECT is answered 200 and recorded as open, then relayed; an absolute-form request
-- is sent on, its head counted, then relayed. The first write may raise; the relay never does.
abbrev pub relay : Config → String → ParsedRequest → Text → Network → Kind → Bool → Attempt
relay c cid request entry net connect_kind true = record {
  answered = some 200;
  contacted = true;
  opened = make_record c (target_of request) allowed (some entry) 0 0 open_tunnel cid ∷ [];
  returned = some (
      make_record c (target_of request) allowed (some entry) net.relayed_up net.relayed_down connect
        cid);
}
relay c cid request entry net absolute_kind true = record {
  answered = none;
  contacted = true;
  opened = [];
  returned = some (
      make_record c (target_of request) allowed (some entry) (request.head_length + net.relayed_up)
        net.relayed_down connect cid);
}
relay c cid request entry net kind false = record {
  answered = none;
  contacted = true;
  opened = [];
  returned = none;
}

abbrev pub reach : Config → String → ParsedRequest → Text → Network → Upstream → Attempt
reach c cid request entry net connected = relay c cid request entry net request.kind net.first_write
reach c cid request entry net unreachable = record {
  answered = some 502;
  contacted = true;
  opened = [];
  returned = some (make_record c (target_of request) allowed (some entry) 0 0 connect cid);
}
reach c cid request entry net broken = record {
  answered = none;
  contacted = true;
  opened = [];
  returned = none;
}

abbrev pub enforce : Config → String → ParsedRequest → Network → Option Text → Attempt
enforce c cid request net none = record {
  answered = some 403;
  contacted = false;
  opened = [];
  returned = some (make_record c (target_of request) denied none 0 0 connect cid);
}
enforce c cid request net (some entry) = reach c cid request entry net net.upstream

unfoldable pub proxy_connection : Config → String → Received → Network → Attempt
unfolding make_record match_allowlist
proxy_connection c cid unreadable net = record {
  answered = some 400;
  contacted = false;
  opened = [];
  returned = some (make_record c invalid denied none 0 0 connect cid);
}
proxy_connection c cid head_raised net = record {
  answered = none;
  contacted = false;
  opened = [];
  returned = none;
}
proxy_connection c cid (received request) net =
    enforce c cid request net (match_allowlist c.allowlist request.host request.port)

-- The record that `_handle` appends at the end: the one returned, or, where the connection raised,
-- `denied` for the target `invalid` under a fresh id.
abbrev pub closing_record : Config → String → Option EgressAuditRecord → EgressAuditRecord
closing_record c fresh (some r) = r
closing_record c fresh none = make_record c invalid denied none 0 0 connect fresh

-- The proxy: `_active`, the tasks in flight under their ids, and the audit file.
pub record EgressProxy : Type 0 where
  pub config : Config
  pub active : ℕ
  pub tasks : List String
  pub sink : List EgressAuditRecord

abbrev pub start : Config → EgressProxy
start c = record { config = c; active = 0; tasks = []; sink = [] }

-- `_safe_append`: a sink that fails loses the record and nothing else.
abbrev pub safe_append :
    Bool → List EgressAuditRecord → List EgressAuditRecord → List EgressAuditRecord
safe_append true sink rs = sink ++ rs
safe_append false sink rs = sink

-- One task of that id less, and whether there was one.
unfoldable pub leave : String → List String → Option (List String)
leave cid [] = none
leave cid (t ∷ ts) = elim (leave cid ts) [
  | none ↦ if str_eq t cid then some ts else none
  | some rest ↦ if str_eq t cid then some ts else some (t ∷ rest)
]

-- The event loop's choices: a client connects; the tunnel of a running task is established; a
-- running task comes to its end. The Booleans say whether the sink takes the record, the second text
-- of the last is the fresh id that `_handle` may need.
pub data Event : Type 0 where
  arrive : String → Event
  establish : String → Received → Network → Bool → Event
  finish : String → String → Received → Network → Bool → Event

abbrev pub is_full : EgressProxy → Bool
is_full p = leb p.config.max_connections p.active

-- `_handle` at its end: the record, and the slot whatever became of the record.
abbrev pub release :
    EgressProxy → String → Option EgressAuditRecord → Bool → Option (List String) → EgressProxy
release p fresh returned works none = p
release p fresh returned works (some rest) = record p {
  active = p.active - 1;
  tasks = rest;
  sink = safe_append works p.sink (closing_record p.config fresh returned ∷ []);
}

unfoldable pub step : EgressProxy → Event → EgressProxy
unfolding leave
step p (arrive cid) =
    if is_full p then p else record p { active = p.active + 1; tasks = cid ∷ p.tasks }
step p (establish cid request net works) = record p {
  sink = safe_append works p.sink (proxy_connection p.config cid request net).opened;
}
step p (finish cid fresh request net works) =
    release p fresh (proxy_connection p.config cid request net).returned works (leave cid p.tasks)

unfoldable pub run : EgressProxy → List Event → EgressProxy
unfolding step
run p [] = p
run p (e ∷ es) = run (step p e) es
