-- ===== src/Wiring/Buildable.antt =====
-- What `unimplemented_selections` reports nothing about.
use agent_keep.Base.{
  String, true, some, List, [], ◌++◌, ◌≡◌, ◌≢◌, ◌↔◌, is_empty, is_empty-append, both_empty, All,
}
use agent_keep.Spec.Check.{Optionally}
use agent_keep.Spec.Intake.{PersonaSource, Concurrency, Unification}
use agent_keep.Spec.State.{Definition, StorageTier}
use agent_keep.Spec.Tools.{ApprovalPolicy, Profile}
use agent_keep.Spec.Sections.{SpecSections}
use agent_keep.Wiring.Guards.{Missing, unimplemented_selections}
use agent_keep.Wiring.Reports.{buildable_iff}
use agent_keep.Wiring.Adapted.{
  IsAdapted, IsEnforced, channels_missing_iff, triggers_missing_none, queue_missing_none,
  serial_iff, allowlist_missing_iff, separate_iff, mode_missing_none, sink_missing_none,
  provider_missing_none,
}
use agent_keep.Wiring.Kept.{
  IsServed, IsKept, IsHealth, definition_missing_iff, history_missing_iff, static_iff,
  memory_missing_iff, health_missing_iff, storage_missing_iff,
}
use agent_keep.Wiring.Granted.{
  IsRegistered, skills_missing_iff, local_missing_iff, confirms_iff, container_iff,
  tiers_missing_none,
}

-- A spec whose every selection has a component that enforces it.
pub record IsBuildable {F : Type 0} (known : List String) (s : SpecSections F) : Type 0 where
  pub channels : All IsAdapted s.channels
  pub concurrency : s.gateway.concurrency ≡ Concurrency.serial
  pub allowlist : Optionally IsEnforced s.gateway.allowlist
  pub unification : s.gateway.identity_unification ≡ Unification.separate
  pub definition : s.sessions.definition ≢ some Definition.hybrid
  pub history : Optionally (IsServed s.persistence.tier) s.sessions.history
  pub persona : s.persona.source ≡ PersonaSource.static
  pub memory : Optionally IsKept s.memory
  pub skills : s.skills ≡ []
  pub tools : All (IsRegistered known) s.tools
  pub approval : s.approval.policy ≡ ApprovalPolicy.allowlist_confirm_rest
  pub profile : s.sandbox.profile ≡ Profile.container
  pub health : Optionally IsHealth s.observability.health
  pub storage : s.persistence.tier ≢ StorageTier.files

-- A part that never reports anything.
skip_empty :
    {P : Type 0} (xs ys : List Missing)
    → is_empty xs ≡ true
    → ((is_empty ys ≡ true) ↔ P)
    → (is_empty (xs ++ ys) ≡ true) ↔ P
skip_empty xs ys e p = let b = is_empty-append xs ys in (λ h. p.0 (b.0 h).1, λ x. b.1 (e, p.1 x))

unimplemented_selections-chain :
    {F : Type 0} (known : List String) (s : SpecSections F)
    → (is_empty (unimplemented_selections known s) ≡ true) ↔ (
        All IsAdapted s.channels
        × ((s.gateway.concurrency ≡ Concurrency.serial)
            × (Optionally IsEnforced s.gateway.allowlist
                × ((s.gateway.identity_unification ≡ Unification.separate)
                    × ((s.sessions.definition ≢ some Definition.hybrid)
                        × (Optionally (IsServed s.persistence.tier) s.sessions.history
                            × ((s.persona.source ≡ PersonaSource.static)
                                × (Optionally IsKept s.memory
                                    × ((s.skills ≡ [])
                                        × (All (IsRegistered known) s.tools
                                            × ((s.approval.policy
                                                  ≡ ApprovalPolicy.allowlist_confirm_rest)
                                                × ((s.sandbox.profile ≡ Profile.container)
                                                    × (Optionally IsHealth s.observability.health
                                                        × (s.persistence.tier
                                                            ≢ StorageTier.files))))))))))))))
unfolding unimplemented_selections
unimplemented_selections-chain known s = both_empty _ _ (channels_missing_iff 0 s.channels) (
    skip_empty _ _ (triggers_missing_none s.triggers) (
      skip_empty _ _ (queue_missing_none s.gateway.queue) (
        both_empty _ _ (buildable_iff _ _ (serial_iff s.gateway.concurrency)) (
          both_empty _ _ (allowlist_missing_iff s.gateway.allowlist) (
            both_empty _ _ (buildable_iff _ _ (separate_iff s.gateway.identity_unification)) (
              skip_empty _ _ (mode_missing_none s.sessions.mode) (
                both_empty _ _ (definition_missing_iff s.sessions.definition) (
                  both_empty _ _ (history_missing_iff s.persistence.tier s.sessions.history) (
                    both_empty _ _ (buildable_iff _ _ (static_iff s.persona.source)) (
                      both_empty _ _ (memory_missing_iff s.memory) (
                        both_empty _ _ (skills_missing_iff s.skills) (
                          both_empty _ _ (local_missing_iff known s.tools) (
                            both_empty _ _ (buildable_iff _ _ (confirms_iff s.approval.policy)) (
                              both_empty _ _ (buildable_iff _ _ (container_iff s.sandbox.profile)) (
                                skip_empty _ _ (provider_missing_none s.models.provider) (
                                  skip_empty _ _ (tiers_missing_none s.models.tiers) (
                                    skip_empty _ _ (sink_missing_none s.observability.audit.sink) (
                                      both_empty _ _ (health_missing_iff s.observability.health)
                                        (storage_missing_iff s.persistence.tier)))))))))))))))))))

-- Nothing is reported missing exactly of a spec whose channels are all the development channel, a
-- Slack webhook or a Webex hook with verified signatures, that is handled serially under an enforced
-- allowlist with separate identities, keeps sessions by channel or by user on SQLite or Postgres,
-- replays a window or retrieves from Postgres, has a static persona, writes facts by the user's
-- command or summaries to pgvector otherwise, has no skills and only registered local tools, confirms
-- what is not pre-approved, runs tools in containers and reports its health at /healthz.
pub unimplemented_selections-IsBuildable :
    {F : Type 0} (known : List String) (s : SpecSections F)
    → (is_empty (unimplemented_selections known s) ≡ true) ↔ IsBuildable known s
unimplemented_selections-IsBuildable known s =
    let c = unimplemented_selections-chain known s in
    (
      λ h.
          let (a, (b, (d, (e, (f, (g, (i, (j, (k, (l, (m, (n, (o, p))))))))))))) = c.0 h in
          record {
            channels = a;
            concurrency = b;
            allowlist = d;
            unification = e;
            definition = f;
            history = g;
            persona = i;
            memory = j;
            skills = k;
            tools = l;
            approval = m;
            profile = n;
            health = o;
            storage = p;
          },
      λ r. c.1 (
        r.channels,
        (
          r.concurrency,
          (
            r.allowlist,
            (
              r.unification,
              (
                r.definition,
                (
                  r.history,
                  (
                    r.persona,
                    (
                      r.memory,
                      (r.skills, (r.tools, (r.approval, (r.profile, (r.health, r.storage))))),
                    ),
                  ),
                ),
              ),
            ),
          ),
        ),
      ),
    )
