-- ===== src/Command/Pipeline.antt =====
-- src/command.rs, lines 133 to 154, 1408 to 1418 and 1455 to 1489: pipelines, and the reach of a cleanup.
use processkit_py.Common.{
  ℕ, ◌≡◌, List, [], ◌∷◌, ◌++◌, Result, ok, ◌>>=◌, map_ok, arith, Text, codes, inl, inr,
  Result-cases,
}
use mathlib.Core.List.{append_assoc, append-nil}
use processkit_py.Command.{Wrapped}
use processkit_py.Durations.{F64, positive_duration}
use processkit_py.Errors.{PyErr}

-- `ParentDeathCleanup`; `later` is a scope that is not known here.
pub data ParentDeathCleanup : Type 0 where
  whole_tree direct_child_only unsupported later : ParentDeathCleanup

unfoldable pub parent_death_cleanup_str : ParentDeathCleanup → Text
parent_death_cleanup_str whole_tree = codes "whole_tree"
parent_death_cleanup_str direct_child_only = codes "direct_child_only"
parent_death_cleanup_str unsupported = codes "unsupported"
parent_death_cleanup_str later = codes "unknown"

-- The crate's `Pipeline` `P` over its commands `K`.
pub record CratePipeline (P K : Type 0) : Type 0 where
  pub start_with : K → K → P
  pub pipe : P → K → P
  pub cancel_on : ℕ → P → P
  pub timeout : ℕ → P → P

-- The builder methods of `Pipeline`; `pipe` is also `|`.
pub data PipelineMethod (K : Type 0) : Type 0 where
  pipe : Wrapped K → PipelineMethod K
  cancel_on : ℕ → PipelineMethod K
  timeout : F64 → PipelineMethod K

module _ {P K : Type 0} (crate : CratePipeline P K) where
  -- `Command.pipe` and `Command.__or__`
  unfoldable pub command_pipe : Wrapped K → Wrapped K → P
  command_pipe a b = crate.start_with a.inner b.inner

  unfoldable pub pipeline_method : PipelineMethod K → P → Result PyErr P
  pipeline_method (pipe c) p = ok (crate.pipe p c.inner)
  pipeline_method (cancel_on token) p = ok (crate.cancel_on token p)
  pipeline_method (timeout seconds) p =
      map_ok (λ duration. crate.timeout duration p) (positive_duration seconds)

  unfoldable pub pipeline_chain : List (PipelineMethod K) → P → Result PyErr P
  unfolding pipeline_method
  pipeline_chain [] p = ok p
  pipeline_chain (method ∷ methods) p = pipeline_method method p >>= pipeline_chain methods

  -- The crate's stages, in order.
  pub record StageLaws (stages : P → List K) : Type 0 where
    pub first_two : (a b : K) → stages (crate.start_with a b) ≡ a ∷ b ∷ []
    pub one_more : (p : P) (k : K) → stages (crate.pipe p k) ≡ stages p ++ k ∷ []
    pub cancel_keeps : (token : ℕ) (p : P) → stages (crate.cancel_on token p) ≡ stages p
    pub timeout_keeps : (duration : ℕ) (p : P) → stages (crate.timeout duration p) ≡ stages p

  -- The commands that a chain adds.
  abbrev pub added : List (PipelineMethod K) → List K
  added [] = []
  added (pipe c ∷ methods) = c.inner ∷ added methods
  added (method ∷ methods) = added methods

  pipeline_chain-stages :
      (stages : P → List K) (laws : StageLaws stages) (methods : List (PipelineMethod K)) (p q : P)
      → pipeline_chain methods p ≡ ok q
      → stages q ≡ stages p ++ added methods
  unfolding pipeline_chain pipeline_method
  pipeline_chain-stages stages laws [] p q h = ground (arith, append-nil (stages p))
  pipeline_chain-stages stages laws (pipe c ∷ methods) p q h = ground (
    arith,
    pipeline_chain-stages stages laws methods (crate.pipe p c.inner) q h,
    laws.one_more p c.inner,
    append_assoc (stages p) (c.inner ∷ []) (added methods),
  )
  pipeline_chain-stages stages laws (cancel_on token ∷ methods) p q h = ground (
    arith,
    pipeline_chain-stages stages laws methods (crate.cancel_on token p) q h,
    laws.cancel_keeps token p,
  )
  pipeline_chain-stages stages laws (timeout seconds ∷ methods) p q h =
      elim (Result-cases (positive_duration seconds)) [
        | inl (e, refused) ↦ let no_way : ⊥ = ground (arith, refused) in elim no_way [ ]
        | inr (d, accepted) ↦ ground (
          arith,
          accepted,
          pipeline_chain-stages stages laws methods (crate.timeout d p) q,
          laws.timeout_keeps d p,
        )
      ]

  -- If a chain of methods on a pipeline of two commands raises nothing, the pipeline has the two
  -- commands and then those that were piped into it, in order, whatever timeouts and tokens were set in
  -- between.
  pub command_pipe-stages :
      (stages : P → List K) (methods : List (PipelineMethod K)) (a b : Wrapped K) (q : P)
      → StageLaws stages
      → pipeline_chain methods (command_pipe a b) ≡ ok q
      → stages q ≡ a.inner ∷ b.inner ∷ added methods
  unfolding command_pipe
  command_pipe-stages stages methods a b q laws h = ground (
    arith,
    pipeline_chain-stages stages laws methods (command_pipe a b) q h,
    laws.first_two a.inner b.inner,
  )
