-- ===== src/Store/Tx/Steps.antt =====
-- storage.py: steps of a transaction that return, one by one.
use python_ai_agent_flow.Prelude.{
  Option, some, Bool, false, nat_eq, string_eq, option_eq, ◌≡◌, refl, ap, ok, Error,
}
use python_ai_agent_flow.Models.Enums.{attempt_status_eq}
use python_ai_agent_flow.Store.Statuses.{process_state_eq, control_action_eq, control_status_eq}
use python_ai_agent_flow.Store.Rows.{Db}
use python_ai_agent_flow.Store.Tx.{Tx, select_from, require, conflict_if, proceed, ◌>>=◌}

-- What a step that returns leaves for the next.
pub after_step :
    {A B : Type 0} (m : Tx A) (f : A → Tx B) (db : Db) {a : A} {db' : Db}
    → m db ≡ ok (a, db')
    → (m >>= f) db ≡ f a db'
unfolding ◌>>=◌
after_step m f db h = ap (proceed f) h

pub read_step :
    {A : Type 0} (g : Db → A) (db : Db) {a : A} → g db ≡ a → select_from g db ≡ ok (a, db)
unfolding select_from
read_step g db h = ap (λ a. ok (a, db)) h

pub need_step :
    {A : Type 0} (o : Option A) (e : Error) (db : Db) {a : A}
    → o ≡ some a
    → require o e db ≡ ok (a, db)
unfolding require
need_step o e db h = rw h refl

pub pass_step : (b : Bool) (e : Error) (db : Db) → b ≡ false → conflict_if b e db ≡ ok (tt, db)
unfolding conflict_if
pass_step b e db h = rw h refl
