-- ===== src/Agents/Stuck.antt =====
-- The critic and reflector cycle of backend/app/agents/graph.py when the reflector raises: the
-- bound on revisions is read by the critic only, and `resilient` counts no failed revision.
use research_mind_ai.Prelude.{ℕ, zero, suc, ◌<◌, ◌≡◌, ◌∙◌, refl, true, false, none, some, arith}
use research_mind_ai.Retrieval.Scores.{Floats}
use research_mind_ai.Retrieval.Service.{is_empty}
use research_mind_ai.Agents.State.{critic, reflector, ResearchState}
use research_mind_ai.Agents.Nodes.{World, Reply, CritiqueData, critic_agent, reflector_agent}
use research_mind_ai.Agents.Graph.{next_node, visit, run}

module _ (fl : Floats) (world : World fl.F) where
  open fl use {F}

  abbrev State : Type 0
  State = ResearchState F

  -- A draft with sources that was revised less than twice.
  abbrev pub Pending : State → Type 0
  Pending s =
      (is_empty s.draft_answer ≡ false) × (is_empty s.chunks ≡ false) × (s.revision_count < 2)

  -- The critic's reply can be read, asks for a revision and names an issue.
  abbrev pub Flags : Reply → Type 0
  Flags r =
      (d : CritiqueData) × (world.parse_critique r.text ≡ some d)
      × (d.needs_revision ≡ true)
      × (is_empty d.issues ≡ false)

  module _ (critic_flags : (s : State) → (r : Reply) × (world.complete critic s ≡ some r) × Flags r)
      (reflector_raises : (s : State) → world.complete reflector s ≡ none) where
    critic-Pending :
        (s : State)
        → Pending s
        → Pending (visit fl world critic s) × ((visit fl world critic s).needs_revision ≡ true)
    unfolding visit critic_agent
    critic-Pending s h =
        let (r, e, (d, q, asks, named)) = critic_flags s in ground (arith, e, q, asks, named)

    reflector-Pending : (s : State) → Pending s → Pending (visit fl world reflector s)
    unfolding visit reflector_agent
    reflector-Pending s h = ground (arith, reflector_raises s)

    run-flagged :
        (n : ℕ) (s : State)
        → (visit fl world critic s).needs_revision ≡ true
        → run fl world (suc n) critic s ≡ run fl world n reflector (visit fl world critic s)
    unfolding run next_node
    run-flagged n s h = ground (arith, h)

    -- If the critic always asks for a revision and the reflector's call always raises, then from
    -- any draft with sources that was revised less than twice the cycle does not end: whatever the
    -- recursion limit, the run reaches it.
    pub never_ends : (fuel : ℕ) (s : State) → Pending s → run fl world fuel critic s ≡ none
    unfolding run next_node
    never_ends zero s h = refl
    never_ends (suc zero) s h = let (_, flagged) = critic-Pending s h in run-flagged zero s flagged
    never_ends (suc (suc n)) s h =
        let (p, flagged) = critic-Pending s h in
        run-flagged (suc n) s flagged
        ∙ never_ends n (visit fl world reflector (visit fl world critic s))
            (reflector-Pending (visit fl world critic s) p)
