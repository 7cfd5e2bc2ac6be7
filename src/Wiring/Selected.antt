-- ===== src/Wiring/Selected.antt =====
-- Which components a built spec consists of, and that the library has them all.
use agent_keep.Base.{
  String, Option, List, ◌++◌, ◌≡◌, ◌↔◌, refl, ok, err, All-of_In, In, as_set, sort_names,
}
use agent_keep.Spec.Sections.{SpecSections}
use agent_keep.Spec.Validate.{UrlParts}
use agent_keep.Wiring.Tables.{component_registry}
use agent_keep.Wiring.Targets.{WiringError, ◌>>=◌}
use agent_keep.Wiring.Select.{
  ensure_buildable, flagged_components, select_components, component_module_names,
}
use agent_keep.Wiring.Covered.{ensure_buildable_iff}
use agent_keep.Wiring.Tabled.{tabled, table_components-tabled, lookups_total}
use agent_keep.Wiring.Declared.{Declares}
use agent_keep.Wiring.Listed.{selected_iff}
use agent_keep.Wiring.Registered.{Declares-registered}

select_components-selected :
    {F : Type 0} (urlsplit : String → Option UrlParts) (known : List String) (s : SpecSections F)
    → ensure_buildable urlsplit known s ≡ ok tt
    → select_components urlsplit known s
      ≡ ok (sort_names (as_set (tabled s ++ flagged_components s)))
unfolding select_components ◌>>=◌
select_components-selected urlsplit known s h =
    rw (h, table_components-tabled known s ((ensure_buildable_iff urlsplit known s).0 h).0) refl

-- A spec that the guard passes is built of exactly the components that it declares: the selection
-- returns them, no table lacks a key, and each of them has a module in the registry.
pub select_components-Declares :
    {F : Type 0} (urlsplit : String → Option UrlParts) (known : List String) (s : SpecSections F)
    → ensure_buildable urlsplit known s ≡ ok tt
    → (components modules : List String) × (select_components urlsplit known s ≡ ok components)
      × (component_module_names urlsplit known s ≡ ok modules)
      × ((c : String) → In c components ↔ Declares s c)
unfolding component_module_names ◌>>=◌
select_components-Declares urlsplit known s h =
    let components = sort_names (as_set (tabled s ++ flagged_components s)) in
    let e = select_components-selected urlsplit known s h in
    let b = ((ensure_buildable_iff urlsplit known s).0 h).0 in
    let (modules, f) = lookups_total component_registry components (
      All-of_In _ components
        (λ c i. Declares-registered s c b.channels ((selected_iff s c).0 i))) in
    (components, sort_names modules, e, rw (e, f) refl, selected_iff s)

-- A spec that the guard refuses is not built of anything: every later step gives the guard's error.
pub select_components-refused :
    {F : Type 0} (urlsplit : String → Option UrlParts) (known : List String) (s : SpecSections F)
    (e : WiringError)
    → ensure_buildable urlsplit known s ≡ err e
    → (select_components urlsplit known s ≡ err e)
      × (component_module_names urlsplit known s ≡ err e)
unfolding component_module_names select_components ◌>>=◌
select_components-refused urlsplit known s e h = (rw h refl, rw h refl)
