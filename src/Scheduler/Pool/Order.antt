-- ===== src/Scheduler/Pool/Order.antt =====
-- scheduler.py: `_claim_order` offers every slot once.
use python_ai_agent_flow.Prelude.{
  ℕ, zero, suc, ◌+◌, ◌≤◌, Bool, List, [], ◌∷◌, ◌≡◌, refl, sym, ◌∙◌, arith, count, length,
  count-append,
}
use python_ai_agent_flow.Models.Enums.{WorkerRole, worker_role_eq}
use python_ai_agent_flow.Scheduler.Calls.{WorkerSlot}
use python_ai_agent_flow.Scheduler.Pool.{
  ordered_roles, slots_by_role, max_lanes, range_from, in_lane, across, lanes, claim_order,
}

module _ (p : WorkerSlot → Bool) where
  -- The lanes of one role, one after the other.
  abbrev count_lanes : List WorkerSlot → List ℕ → ℕ
  count_lanes slots [] = 0
  count_lanes slots (lane ∷ rest) = count p (in_lane lane slots) + count_lanes slots rest

  count_lanes_nil : (ns : List ℕ) → count_lanes [] ns ≡ 0
  unfolding in_lane
  count_lanes_nil [] = refl
  count_lanes_nil (n ∷ ns) = omega (arith, count_lanes_nil ns)

  count_lanes_tail :
      (s : WorkerSlot) (ss : List WorkerSlot) (lo n : ℕ)
      → count_lanes (s ∷ ss) (range_from (suc lo) n) ≡ count_lanes ss (range_from lo n)
  unfolding in_lane
  count_lanes_tail s ss lo zero = refl
  count_lanes_tail s ss lo (suc n) = ground (arith, count_lanes_tail s ss (suc lo) n)

  -- Lanes enough hold every slot of a role.
  count_lanes_all :
      (ss : List WorkerSlot) (n : ℕ) → length ss ≤ n → count_lanes ss (range_from 0 n) ≡ count p ss
  unfolding in_lane
  count_lanes_all [] n h = count_lanes_nil (range_from 0 n)
  count_lanes_all (s ∷ ss) zero h = absurd (omega (arith, h))
  count_lanes_all (s ∷ ss) (suc n) h =
      ground (arith, count_lanes_tail s ss 0 n, count_lanes_all ss n)

  abbrev count_roles : List WorkerSlot → List WorkerRole → List ℕ → ℕ
  count_roles slots [] ns = 0
  count_roles slots (r ∷ rs) ns = count_lanes (slots_by_role slots r) ns + count_roles slots rs ns

  abbrev count_across : List WorkerSlot → ℕ → List WorkerRole → ℕ
  count_across slots lane [] = 0
  count_across slots lane (r ∷ rs) =
      count p (in_lane lane (slots_by_role slots r)) + count_across slots lane rs

  count-across :
      (slots : List WorkerSlot) (lane : ℕ) (rs : List WorkerRole)
      → count p (across slots lane rs) ≡ count_across slots lane rs
  unfolding across
  count-across slots lane [] = refl
  count-across slots lane (r ∷ rs) = ground (
    arith,
    count-append p (in_lane lane (slots_by_role slots r)) (across slots lane rs),
    count-across slots lane rs,
  )

  count_roles_step :
      (slots : List WorkerSlot) (lane : ℕ) (ns : List ℕ) (rs : List WorkerRole)
      → count_roles slots rs (lane ∷ ns) ≡ count_across slots lane rs + count_roles slots rs ns
  count_roles_step slots lane ns [] = refl
  count_roles_step slots lane ns (r ∷ rs) = omega (arith, count_roles_step slots lane ns rs)

  count_roles_none : (slots : List WorkerSlot) (rs : List WorkerRole) → count_roles slots rs [] ≡ 0
  count_roles_none slots [] = refl
  count_roles_none slots (r ∷ rs) = omega (arith, count_roles_none slots rs)

  -- The loop by lanes counts what a loop by roles does.
  count-lanes :
      (slots : List WorkerSlot) (rs : List WorkerRole) (ns : List ℕ)
      → count p (lanes slots rs ns) ≡ count_roles slots rs ns
  unfolding lanes
  count-lanes slots rs [] = sym (count_roles_none slots rs)
  count-lanes slots rs (n ∷ ns) = ground (
    arith,
    count-append p (across slots n rs) (lanes slots rs ns),
    count-across slots n rs,
    count_roles_step slots n ns rs,
    count-lanes slots rs ns,
  )

  abbrev count_by_role : List WorkerSlot → List WorkerRole → ℕ
  count_by_role slots [] = 0
  count_by_role slots (r ∷ rs) = count p (slots_by_role slots r) + count_by_role slots rs

  count_roles_all :
      (slots : List WorkerSlot) (rs : List WorkerRole) (n : ℕ)
      → max_lanes slots rs ≤ n
      → count_roles slots rs (range_from 0 n) ≡ count_by_role slots rs
  unfolding max_lanes
  count_roles_all slots [] n h = refl
  count_roles_all slots (r ∷ rs) n h =
      ground (arith, count_lanes_all (slots_by_role slots r) n, count_roles_all slots rs n)

  three_roles :
      (slots : List WorkerSlot)
      → count p (slots_by_role slots WorkerRole.investigator)
          + (count p (slots_by_role slots WorkerRole.fixer)
              + count p (slots_by_role slots WorkerRole.tester))
        ≡ count p slots
  unfolding slots_by_role
  three_roles [] = refl
  three_roles (s ∷ ss) = ground (arith, three_roles ss)

  -- Every slot has one of the roles, and these are turned about.
  count_by_role_all :
      (slots : List WorkerSlot) (cursor : ℕ)
      → count_by_role slots (ordered_roles cursor) ≡ count p slots
  unfolding ordered_roles
  count_by_role_all slots zero = omega (arith, three_roles slots)
  count_by_role_all slots (suc zero) = omega (arith, three_roles slots)
  count_by_role_all slots (suc (suc zero)) = omega (arith, three_roles slots)
  count_by_role_all slots (suc (suc (suc n))) = omega (arith, three_roles slots)

-- The order in which the slots are offered holds every slot as often as the pool does, whatever the
-- cursor is: no slot is left out, and none is offered twice.
pub claim_order-count :
    (p : WorkerSlot → Bool) (cursor : ℕ) (slots : List WorkerSlot)
    → count p (claim_order cursor slots) ≡ count p slots
unfolding claim_order
claim_order-count p cursor slots =
    let roles = ordered_roles cursor in
    count-lanes p slots roles (range_from 0 (max_lanes slots roles))
    ∙ count_roles_all p slots roles (max_lanes slots roles) (omega arith)
    ∙ count_by_role_all p slots cursor
