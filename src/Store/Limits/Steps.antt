-- ===== src/Store/Limits/Steps.antt =====
-- storage.py: what a claim writes once the job's row is written.
use python_ai_agent_flow.Prelude.{
  ℕ, String, Option, none, some, Bool, true, false, ◌≡◌, refl, sym, ap, ◌∙◌, List, find, ◌==◌,
  nat_eq, string_eq, lease_conflict,
}
use python_ai_agent_flow.Store.Statuses.{campaign_status_eq}
use python_ai_agent_flow.Store.Rows.{Db, Campaign, Job, Attempt, ResourceLease, Control}
use python_ai_agent_flow.Store.Env.{Env}
use python_ai_agent_flow.Store.Fences.{job_by_id}
use python_ai_agent_flow.Store.Events.{append_resource_lease_events}
use python_ai_agent_flow.Store.Eligible.{Grant}
use python_ai_agent_flow.Store.Resume.{apply_resume}
use python_ai_agent_flow.Store.Claim.{Claimed, Claimant, write_claim}
use python_ai_agent_flow.Store.Release.{Post-append_event, Post-update_controls, lease_events-Post}
use python_ai_agent_flow.Store.Tx.{
  append_event, insert_attempt, insert_lease, for_each, update_controls, if_absent,
}
use python_ai_agent_flow.Store.Tx.Post.{
  Post, Post-pure, Post-read, Post-need, Post-guard, Post-bind, Post-for_each,
}

pub if_absent-Post :
    {Q : Unit {0} → Db → Type 0} (b : Bool) (db : Db) → Q tt db → Post Q (if_absent b db)
if_absent-Post true db q = record { holds = tt }
if_absent-Post false db q = record { holds = q }

abbrev pub Held : (List Job → List Campaign → Type 0) → Db → Type 0
Held F db = F db.jobs db.campaigns

-- What a claim writes after the jobs.
module _ (F : List Job → List Campaign → Type 0) (env : Env) where
  insert_attempt-Held :
      (a : Attempt) (db : Db) → Held F db → Post (λ _. Held F) (insert_attempt a db)
  unfolding insert_attempt
  insert_attempt-Held a db h = if_absent-Post _ _ h

  insert_lease-Held :
      (l : ResourceLease) (db : Db) → Held F db → Post (λ _. Held F) (insert_lease l db)
  unfolding insert_lease
  insert_lease-Held l db h = if_absent-Post _ _ h

  apply_resume-Held :
      (job : Job) (attempt_id : String) (number now : ℕ) (request : Option Control) (db : Db)
      → Held F db
      → Post (λ _. Held F) (apply_resume env job attempt_id number now request db)
  unfolding apply_resume
  apply_resume-Held job attempt_id number now none db h = Post-pure tt db h
  apply_resume-Held job attempt_id number now (some r) db h = Post-read _ _ db (
      Post-need _ lease_conflict _ db (λ source _. Post-read _ _ db (
        Post-guard _ lease_conflict _ db (λ _.
          Post-bind (λ _. Held F) (update_controls _ _) _ db
            (Post-update_controls _ _ db (λ n cs. h))
            (λ n db1 h1.
              Post-guard _ lease_conflict _ db1 (λ _. Post-append_event _ db1 (λ es. h1)))))))

-- The row that is answered is the one in the table.
abbrev pub IsRowOf : Job → Option Claimed → Db → Type 0
IsRowOf job o db = (c : Claimed) → o ≡ some c → c.row ≡ job_by_id job.id db

row_of_some :
    {row row' : Option Job} {r : Option Control} {c : Claimed}
    → row ≡ row'
    → some (record { row = row; resumed = r }) ≡ some c
    → c.row ≡ row'
row_of_some {row} e h = sym (ap (λ o. elim o [ none ↦ row | some k ↦ k.row ]) h) ∙ e

module _ (F : List Job → List Campaign → Type 0) (env : Env) (who : Claimant) (job : Job) where
  pub write_claim-Held :
      (g : Grant) (db : Db)
      → Held F db
      → Post (λ o d. Held F d × IsRowOf job o d) (write_claim env who job g db)
  unfolding write_claim
  write_claim-Held g db h =
      Post-bind (λ _. Held F) (insert_attempt _) _ db (insert_attempt-Held F env _ db h)
        (λ _ db1 h1.
          Post-bind (λ _. Held F) (for_each _ g.plan) _ db1
            (Post-for_each (Held F) _ g.plan db1 (λ p d k. insert_lease-Held F env _ d k) h1)
            (λ _ db2 h2.
              Post-bind (λ _. Held F) (append_event _) _ db2 (Post-append_event _ db2 (λ es. h2))
                (λ _ db3 h3. Post-read _ _ db3 (
                  Post-bind (λ _. Held F) (append_resource_lease_events env _ _ _ _ _ _ _) _ db3
                    (lease_events-Post (Held F) (λ _ _ k. k) env _ _ _ _ _ _ who.now db3 h3)
                    (λ _ db4 h4. Post-read (job_by_id job.id) _ db4 (
                      Post-read _ _ db4 (
                        let G = λ (js : List Job) (cs : List Campaign).
                          F js cs
                          × (find (λ j. j.id == job.id) db4.jobs ≡ find (λ j. j.id == job.id) js) in
                        Post-bind (λ _. Held G) (apply_resume env job who.attempt_id _ who.now _) _
                          db4
                          (apply_resume-Held G env job who.attempt_id _ who.now _ db4 (h4, refl))
                          (λ _ db5 h5. Post-pure _ db5 (h5.0, λ c e. row_of_some h5.1 e)))))))))
