-- ===== src/Mode.antt =====
-- internal/mode/mode.go: a scenario compiled to the standing condition that a sandbox is put into. The
-- texts of the errors are left out.
pub mod Collects
pub mod Standing
pub mod Enter
use pikopod.Base.{
  ℕ, ◌+◌, Bool, true, false, not, ◌&&◌, ◌||◌, Option, none, some, List, [], ◌∷◌, ◌++◌, ◌==◌,
  nat_beq, if◌then◌else◌, length, bytes_eq,
}
use pikopod.Base.Bytes.{Bytes, codes}
use pikopod.Base.Json.{Json}
use pikopod.Base.Decimal.{itoa}
use pikopod.Sandbox.Faults.{FaultKind, latency, hang, slow_body, FaultRule, clear_faults, arm_fault}
use pikopod.Sandbox.Deliveries.{Outbox}
use pikopod.Sandbox.Seeding.{
  ResourceTable, QuotaLimits, SeedError, Seeded, refused, seeded, seed_resource,
}
use pikopod.Scenario.{
  InjectFaultConfig, SeedResource, StepConfig, inject_fault, seed_state, clear_fault, other_config,
  Step, is_conditioning, or_empty, fault_rule_for,
}

-- `Verify` holds the steps alone: the inputs and defaults are those of the scenario.
pub record Spec : Type 0 where
  pub name : Bytes
  pub source : Bytes
  pub faults : List FaultRule
  pub seeds : List SeedResource
  pub verify : List Step

pub data CompileError : Type 0 where
  endless_hold : FaultKind → CompileError
  no_standing_state : CompileError

pub data Compiled : Type 0 where
  failed : CompileError → Compiled
  compiled : Spec → Compiled

-- `blockingKinds`
unfoldable pub is_blocking_kind : FaultKind → Bool
is_blocking_kind hang = true
is_blocking_kind slow_body = true
is_blocking_kind latency = true
is_blocking_kind _ = false

-- `verifyTypes`
unfoldable pub is_verify_type : Bytes → Bool
is_verify_type type =
    (type == codes "VERIFY_SEQUENCE")
    || ((type == codes "VERIFY_REQUESTS")
        || ((type == codes "ASSERT_STATE") || (type == codes "EXPECT_WEBHOOK")))

-- A rule of a blocking kind, served in real time and without an end.
unfoldable pub holds_endlessly : FaultRule → Bool
unfolding is_blocking_kind
holds_endlessly rule = rule.wallclock && (is_blocking_kind rule.kind && nat_beq rule.times 0)

abbrev pub fault_id : ℕ → Bytes
fault_id n = codes "mode-" ++ itoa n

unfoldable pub verify_steps : List Step → List Step
unfolding is_verify_type
verify_steps [] = []
verify_steps (s ∷ steps) =
    let rest = verify_steps steps in if is_verify_type s.type then s ∷ rest else rest

-- What the first loop of `Compile` collects, with the steps that it leaves.
pub record Collected : Type 0 where
  pub faults : List FaultRule
  pub seeds : List SeedResource
  pub rest : List Step

pub data Outcome : Type 0 where
  stopped : CompileError → Outcome
  collected : Collected → Outcome

module _ (marshal : Json → Option Bytes) where
  -- The first loop of `Compile`.
  unfoldable pub collect : List Step → List FaultRule → List SeedResource → Outcome
  unfolding is_conditioning fault_rule_for holds_endlessly itoa
  collect [] faults seeds = collected (record { faults = faults; seeds = seeds; rest = [] })
  collect (s ∷ steps) faults seeds = elim (is_conditioning s.type) [
    | false ↦ collected (record { faults = faults; seeds = seeds; rest = s ∷ steps })
    | true ↦ elim s.config [
      | inject_fault cfg ↦ elim (fault_rule_for marshal cfg (fault_id (length faults + 1))) [
        | none ↦ collect steps faults seeds
        | some rule ↦ elim (holds_endlessly rule) [
          | true ↦ stopped (endless_hold rule.kind)
          | false ↦ collect steps (faults ++ rule ∷ []) seeds
        ]
      ]
      | seed_state resources ↦ collect steps faults (seeds ++ resources)
      | clear_fault cfg ↦ collect steps [] seeds
      | other_config ↦ collect steps faults seeds
    ]
  ]

  abbrev finish : Bytes → Bytes → Outcome → Compiled
  finish name source (stopped e) = failed e
  finish name source (collected c) =
      if nat_beq (length c.faults) 0 && nat_beq (length c.seeds) 0
      then failed no_standing_state
      else compiled (record {
        name = name;
        source = source;
        faults = c.faults;
        seeds = c.seeds;
        verify = verify_steps c.rest;
      })

  -- `Compile`
  unfoldable pub compile : Bytes → Bytes → List Step → Compiled
  unfolding collect verify_steps
  compile name source steps = finish name source (collect steps [] [])
