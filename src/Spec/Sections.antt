-- ===== src/Spec/Sections.antt =====
-- keep_spec/models.py: the sections together, and the envelope around them. `F` is Python's `float`.
use agent_keep.Base.{Option, List}
use agent_keep.Spec.Intake.{Metadata, Persona, Triggers, Channel, Gateway}
use agent_keep.Spec.State.{Sessions, Memory, Observability, Persistence}
use agent_keep.Spec.Tools.{SkillPack, McpServer, Approval, Sandbox}
use agent_keep.Spec.Providers.{Models}

module _ (F : Type 0) where
  pub record SpecSections : Type 0 where
    pub persona : Persona
    pub triggers : Option Triggers
    pub channels : List Channel
    pub gateway : Gateway
    pub sessions : Sessions
    pub memory : Option Memory
    pub skills : List SkillPack
    pub tools : List McpServer
    pub approval : Approval
    pub sandbox : Sandbox
    pub models : Models F
    pub observability : Observability
    pub persistence : Persistence

  -- `api_version` and `kind` are the constants that the schema asks for.
  pub record AgentSpec : Type 0 where
    pub metadata : Metadata
    pub spec : SpecSections
