-- ===== src/Executor/Visible.antt =====
-- What the model sees of the executor's registry.
use agent_keep.Base.{String, ◌≡◌, refl, none, List, [], ◌∷◌, map, arith, eq_iff, if◌then◌else◌}
use agent_keep.Base.Dict
use agent_keep.Base.Dict.{Dict}
use agent_keep.Executor.Types.{ToolDescriptor, GrantedTool, Executor, pins_of}
use agent_keep.Executor.Calls.{unpinned, visible_tools}

get-unpinned :
    {V : Type 0} (pins parameters : Dict V) (k : String)
    → Dict.get (unpinned pins parameters) k
      ≡ (if Dict.has pins k then none else Dict.get parameters k)
unfolding unpinned Dict.get
get-unpinned pins [] k = ground arith
get-unpinned pins ((j, v) ∷ parameters) k =
    ground (arith, eq_iff j k, get-unpinned pins parameters k)

-- One descriptor for each granted tool, in the registry's order: its name, its description, and of
-- its parameters those that no pin takes.
abbrev pub Shows : {V W : Type 0} → List (ToolDescriptor V) → Dict (GrantedTool V W) → Type 0
Shows [] [] = Unit
Shows (d ∷ ds) ((n, tool) ∷ tools) =
    ((d.name ≡ tool.name)
      × (d.description ≡ tool.description)
      × ((k : String)
          → Dict.get d.parameters k
            ≡ (if Dict.has (pins_of tool) k then none else Dict.get tool.parameters k)))
    × Shows ds tools
Shows _ _ = ⊥

visible-Shows :
    {V W : Type 0} (tools : Dict (GrantedTool V W))
    → Shows
        (map
          (λ e. record {
            name = e.1.name;
            description = e.1.description;
            parameters = unpinned (pins_of e.1) e.1.parameters;
          })
          tools)
        tools
visible-Shows [] = tt
visible-Shows ((n, tool) ∷ tools) =
    ((refl, refl, λ k. get-unpinned (pins_of tool) tool.parameters k), visible-Shows tools)

-- The model is shown exactly the granted tools, in the registry's order, and of each tool's parameters
-- exactly those that the grant does not pin.
pub visible_tools-Shows : {V W : Type 0} (x : Executor V W) → Shows (visible_tools x) x.tools
unfolding visible_tools
visible_tools-Shows x = visible-Shows x.tools
