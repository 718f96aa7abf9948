-- ===== src/Agents/Rivals.antt =====
-- The active runs of a specialist in a workflow.
use ai_game.Base.{
  ℕ, ◌≡◌, sym, ◌∙◌, inl, inr, true, false, some, List, [], ◌∷◌, ◌++◌, arith, ◌==◌, put, key-find,
  All, All-map, Bool-cases,
}
use ai_game.Constants.{AgentName, agent_eq}
use ai_game.Agents.Tables.{AgentRun, Audit, run_key, find_run, is_active}
use ai_game.Agents.Service.{has_active_run, new_run}
use ai_game.Agents.Calls.{Call, no_run, answer, left, replay, Touches, changes, creates, touches}

-- Two active runs of one specialist in one workflow.
abbrev Rivals : AgentRun → AgentRun → Type 0
Rivals x y =
    (x.workflow_id ≡ y.workflow_id)
    × (agent_eq x.agent_name y.agent_name ≡ true)
    × (is_active x.status ≡ true)
    × (is_active y.status ≡ true)

abbrev pub OneActive : List AgentRun → Type 0
OneActive [] = Unit
OneActive (x ∷ xs) = All (λ y. ¬ Rivals x y) xs × OneActive xs

All-found :
    (P : AgentRun → Type 0) (id : ℕ) (run : AgentRun) (xs : List AgentRun)
    → find_run id xs ≡ some run
    → All P xs
    → P run
All-found P id run [] f h = ground (arith, f)
All-found P id run (x ∷ xs) f h = elim (Bool-cases (id == x.agent_run_id)) [
  | inl here ↦ let same : x ≡ run = ground (arith, f, here) in rw (← same) h.0
  | inr elsewhere ↦ All-found P id run xs (ground (arith, f, elsewhere)) h.1
]

All-replaced :
    (P : AgentRun → Type 0) (new : AgentRun) (xs : List AgentRun)
    → P new
    → All P xs
    → All P (put run_key new xs)
All-replaced P new [] p h = tt
All-replaced P new (x ∷ xs) p h = elim (Bool-cases (new.agent_run_id == x.agent_run_id)) [
  | inl here ↦ rw here (p, h.1)
  | inr elsewhere ↦ rw elsewhere (h.0, All-replaced P new xs p h.1)
]

-- A run that was active and keeps its workflow and agent has no rival that it had not before.
module _ (id : ℕ) (old new : AgentRun) (active : is_active old.status ≡ true)
    (key : new.agent_run_id ≡ id) (workflow : new.workflow_id ≡ old.workflow_id)
    (agent : new.agent_name ≡ old.agent_name) where
  as_rival : (y : AgentRun) → Rivals new y → Rivals old y
  as_rival y (w, n, _, b) = (sym workflow ∙ w, ground (arith, n, agent), active, b)

  rival_as : (x : AgentRun) → Rivals x new → Rivals x old
  rival_as x (w, n, c, _) = (w ∙ workflow, ground (arith, n, agent), c, active)

  changed-OneActive :
      (xs : List AgentRun)
      → find_run id xs ≡ some old
      → OneActive xs
      → OneActive (put run_key new xs)
  changed-OneActive [] f h = tt
  changed-OneActive (x ∷ xs) f (h, rest) = elim (Bool-cases (new.agent_run_id == x.agent_run_id)) [
    | inl here ↦
        let same : x ≡ old = ground (arith, f, here, key) in
        let free : All (λ y. ¬ Rivals old y) xs = rw (← same) h in
        rw here (All-map (λ y n r. n (as_rival y r)) xs free, rest)
    | inr elsewhere ↦
        let later : find_run id xs ≡ some old = ground (arith, f, elsewhere, key) in
        rw elsewhere (
          All-replaced (λ y. ¬ Rivals x y) new xs
              (λ r. All-found (λ y. ¬ Rivals x y) id old xs later h (rival_as x r)) h,
          changed-OneActive xs later rest,
        )
  ]

appended-OneActive :
    (new : AgentRun) (xs : List AgentRun)
    → All (λ x. ¬ Rivals x new) xs
    → OneActive xs
    → OneActive (xs ++ new ∷ [])
appended-OneActive new [] h o = (tt, tt)
appended-OneActive new (x ∷ xs) h (free, rest) =
    (appended new x xs free h.0, appended-OneActive new xs h.1 rest)
  where
    appended :
        (new x : AgentRun) (xs : List AgentRun)
        → All (λ y. ¬ Rivals x y) xs
        → ¬ Rivals x new
        → All (λ y. ¬ Rivals x y) (xs ++ new ∷ [])
    appended new x [] free n = (n, tt)
    appended new x (y ∷ ys) free n = (free.0, appended new x ys free.1 n)

no-Rivals :
    (id workflow_id campaign_id : ℕ) (agent : AgentName) (xs : List AgentRun)
    → has_active_run workflow_id agent xs ≡ false
    → All (λ x. ¬ Rivals x (new_run id workflow_id campaign_id agent)) xs
unfolding has_active_run
no-Rivals id workflow_id campaign_id agent [] h = tt
no-Rivals id workflow_id campaign_id agent (x ∷ xs) h = (
  (λ (w, n, c, _). ground (arith, h, w, n, c)),
  no-Rivals id workflow_id campaign_id agent xs (ground (arith, h)),
)

touched-OneActive :
    (a : Audit) (runs : List AgentRun) → Touches a runs → OneActive a.runs → OneActive runs
touched-OneActive a _ no_run o = o
touched-OneActive a _ (changes id run new f active key w n) o =
    changed-OneActive id run new active (key ∙ key-find run_key id a.runs run f) w n a.runs f o
touched-OneActive a _ (creates id w c agent f none_active) o =
    appended-OneActive (new_run id w c agent) a.runs (no-Rivals id w c agent a.runs none_active) o

-- In every history of calls a specialist has at most one active run in a workflow, if that holds at the
-- start.
pub replay-OneActive :
    (calls : List Call) (a : Audit) → OneActive a.runs → OneActive (replay calls a).runs
unfolding replay
replay-OneActive [] a o = o
replay-OneActive (call ∷ rest) a o =
    replay-OneActive rest (left a (answer call a)) (touched-OneActive a _ (touches call a) o)
