-- ===== src/Spec/Tools.antt =====
-- keep_spec/models.py: skills, tool servers and their grants, approval, sandbox. A grant and its
-- scope are those of Executor/Build.
use agent_keep.Base.{String, Bool, Option, List, ℤ}
use agent_keep.Executor.Build.{Grant}

pub data Selection : Type 0 where
  always keyword model_driven : Selection

pub record SkillPack : Type 0 where
  pub name : String
  pub version : Option String
  pub selection : Selection
  pub keywords : List String

pub record StdioTransport : Type 0 where
  pub command : String
  pub args : List String

pub record HttpTransport : Type 0 where
  pub url : String

-- `McpTransport`, told apart by `kind`.
pub data McpTransport : Type 0 where
  stdio : StdioTransport → McpTransport
  http : HttpTransport → McpTransport
  local : McpTransport

pub data ConstraintValue : Type 0 where
  text_value : String → ConstraintValue
  int_value : ℤ → ConstraintValue
  bool_value : Bool → ConstraintValue

-- `ToolGrant`
abbrev pub ToolGrant : Type 0
ToolGrant = Grant ConstraintValue

pub record McpServer : Type 0 where
  pub name : String
  pub transport : McpTransport
  pub allow : List ToolGrant
  pub secret_envs : List String

pub data ApprovalPolicy : Type 0 where
  autonomous allowlist_confirm_rest everything : ApprovalPolicy

pub record Approval : Type 0 where
  pub policy : ApprovalPolicy
  pub auto_approve : List String

pub data Profile : Type 0 where
  same_process restricted_user container : Profile

pub record Sandbox : Type 0 where
  pub profile : Profile
  pub egress : List String
