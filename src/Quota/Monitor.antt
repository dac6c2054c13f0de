-- ===== src/Quota/Monitor.antt =====
-- src/hpc_gui/services/quota_monitor.py: `QuotaMonitor` over time. Its methods are called by one
-- thread, and are one step each; a job runs on a thread of its own, between whose steps they come.
use hpc_client_gui.Base.{
  ℕ, suc, List, Bool, true, false, not, ◌&&◌, ◌||◌, any, ◌==◌, is_empty, if◌then◌else◌, Option,
  none, some,
}
use hpc_client_gui.Base.Text.{Text, codes, text_eq}
use hpc_client_gui.Base.Json.{Json, Members, get, get_or_null}
use hpc_client_gui.Config.{str_of, str_or_empty}
use hpc_client_gui.Quota.{
  Gate, not_configured, disabled, invalid_configuration, unsupported, ready_not_enabled, eligible,
  quota_gate,
}

-- `(connection_id, provider_id, source_id, subject)`
pub record Key : Type 0 where
  pub connection_id : Text
  pub provider_id : Text
  pub source_id : Text
  pub subject : Text

abbrev pub key_eq : Key → Key → Bool
key_eq a b =
    text_eq a.connection_id b.connection_id
    && text_eq a.provider_id b.provider_id
    && text_eq a.source_id b.source_id
    && text_eq a.subject b.subject

-- `QuotaResult`: stale, of no backend, what the backend read in the output, or an error.
pub data QuotaResult : Type 0 where
  stale no_backend failed : QuotaResult
  read_out : ℕ → QuotaResult

-- A job waits or runs, up to its comparison of the generations; it has compared them, or the
-- transport has raised, which settles its result; its future has the result; the callback has run.
-- A job that is cancelled ends with its callback at once.
pub data Progress : Type 0 where
  submitted cancelled : Progress
  compared returned done : QuotaResult → Progress

-- A future with what its `run` has captured.
pub record Job : Type 0 where
  pub key : Key
  pub generation : ℕ
  pub backend : Option Text
  pub progress : Progress

-- The futures are numbered in the order of their submission.
pub record Monitor : Type 0 where
  pub pending : Key → Option ℕ
  pub generations : Key → ℕ
  pub jobs : ℕ → Option Job
  pub submissions : ℕ

abbrev pub no_jobs : Monitor
no_jobs = record { pending = λ k. none; generations = λ k. 0; jobs = λ i. none; submissions = 0 }

abbrev pub set_pending : Key → Option ℕ → Monitor → Monitor
set_pending k p m = record {
  pending = λ other. if key_eq other k then p else m.pending other;
  generations = m.generations;
  jobs = m.jobs;
  submissions = m.submissions;
}

abbrev pub set_job : ℕ → Job → Monitor → Monitor
set_job i job m = record {
  pending = m.pending;
  generations = m.generations;
  jobs = λ other. if other == i then some job else m.jobs other;
  submissions = m.submissions;
}

abbrev pub with_progress : Progress → Job → Job
with_progress p job = record {
  key = job.key;
  generation = job.generation;
  backend = job.backend;
  progress = p;
}

abbrev pub is_over : Option Job → Bool
is_over none = true
is_over (some job) = elim job.progress [
  | submitted ↦ false
  | compared r ↦ false
  | cancelled ↦ true
  | returned r ↦ true
  | done r ↦ true
]

-- `self._executor.submit(run)` and the note of the future.
abbrev pub submit : Key → Option Text → Monitor → Option ℕ × Monitor
submit k backend m =
    let i = m.submissions in
    let job : Job = record {
      key = k;
      generation = m.generations k;
      backend = backend;
      progress = submitted;
    } in
    (
      some i,
      record {
        pending = λ other. if key_eq other k then some i else m.pending other;
        generations = m.generations;
        jobs = λ other. if other == i then some job else m.jobs other;
        submissions = suc i;
      },
    )

-- `key in self._pending and not self._pending[key].done()`, and the future.
abbrev pub running_job : Key → Monitor → Option ℕ
running_job k m = elim (m.pending k) [
  | none ↦ none
  | some i ↦ if is_over (m.jobs i) then none else some i
]

abbrev pub is_eligible : Gate → Bool
is_eligible g = elim g [
  | not_configured ↦ false
  | disabled ↦ false
  | invalid_configuration ↦ false
  | unsupported ↦ false
  | ready_not_enabled ↦ false
  | eligible ↦ true
]

module _ (repr : Json → Text) (placeholders_known : Text → Bool) (backend_ids : List Text) where
  abbrev pub backend_of : Members → Option Text
  backend_of source =
      let backend_id = str_of repr (get_or_null (get (codes "backend_id") source)) in
      if any (text_eq backend_id) backend_ids then some backend_id else none

  -- `refresh`: the future it returns, if one, and the monitor after it.
  unfoldable pub refresh : Members → Key → Bool → Monitor → Option ℕ × Monitor
  refresh source k connected m =
      if not (
        is_eligible
          (quota_gate repr (some source) backend_ids none connected (not (is_empty k.subject))))
      then (none, m)
      else if not (
          placeholders_known
            (str_or_empty repr (get_or_null (get (codes "command_template") source))))
      then (none, m)
      else (elim (running_job k m) [ some i ↦ (some i, m) | none ↦ submit k (backend_of source) m ])

-- What the transport gives: an exception, or an output that the backend reads or raises on.
pub data Answer : Type 0 where
  transport_error : Answer
  output : Option ℕ → Answer

abbrev pub read_by : Option Text → Option ℕ → QuotaResult
read_by none parsed = no_backend
read_by (some b) none = failed
read_by (some b) (some n) = read_out n

-- The result of `run`, with the generation of its key at the time of the comparison.
abbrev pub result_of : Job → Answer → ℕ → QuotaResult
result_of job transport_error generation = failed
result_of job (output parsed) generation =
    if not (generation == job.generation) then stale else read_by job.backend parsed

-- `run` up to the comparison of the generations, or to the exception of the transport. What
-- `backend.parse` does with the output afterwards depends on nothing else.
unfoldable pub compare : ℕ → Answer → Monitor → Monitor
compare i answer m = elim (m.jobs i) [
  | none ↦ m
  | some job ↦ elim job.progress [
    | submitted ↦
        set_job i (with_progress (compared (result_of job answer (m.generations job.key))) job) m
    | compared r ↦ m
    | returned r ↦ m
    | cancelled ↦ m
    | done r ↦ m
  ]
]

-- `run` returns, and its future is done.
unfoldable pub return_result : ℕ → Monitor → Monitor
return_result i m = elim (m.jobs i) [
  | none ↦ m
  | some job ↦ elim job.progress [
    | submitted ↦ m
    | compared r ↦ set_job i (with_progress (returned r) job) m
    | returned r ↦ m
    | cancelled ↦ m
    | done r ↦ m
  ]
]

-- The callback of a future that is done.
unfoldable pub call_back : ℕ → Monitor → Monitor
call_back i m = elim (m.jobs i) [
  | none ↦ m
  | some job ↦ elim job.progress [
    | submitted ↦ m
    | compared r ↦ m
    | returned r ↦ set_pending job.key none (set_job i (with_progress (done r) job) m)
    | cancelled ↦ m
    | done r ↦ m
  ]
]

-- A job that has compared the generations runs.
abbrev pub has_compared : Job → Bool
has_compared job = elim job.progress [
  | submitted ↦ false
  | compared r ↦ true
  | returned r ↦ true
  | cancelled ↦ false
  | done r ↦ true
]

-- `future.cancel()`, which does nothing to a future whose job has started.
abbrev pub cancel : Bool → Option ℕ → Monitor → Monitor
cancel started none m = m
cancel started (some i) m = elim (m.jobs i) [
  | none ↦ m
  | some job ↦
      if started || has_compared job || is_over (some job)
      then m
      else set_pending job.key none (set_job i (with_progress cancelled job) m)
]

-- The generation of a key is counted on, and its future forgotten.
abbrev pub bump : Key → Monitor → Monitor
bump k m = record {
  pending = λ other. if key_eq other k then none else m.pending other;
  generations = λ other. if key_eq other k then suc (m.generations other) else m.generations other;
  jobs = m.jobs;
  submissions = m.submissions;
}

-- `invalidate`
unfoldable pub invalidate : Key → Bool → Monitor → Monitor
invalidate k started m = cancel started (m.pending k) (bump k m)

-- A call of the monitor, or a step of a job.
pub data Event : Type 0 where
  refreshed : Members → Key → Bool → Event
  invalidated : Key → Bool → Event
  outputs : ℕ → Answer → Event
  returns calls_back : ℕ → Event

unfoldable pub step : (Json → Text) → (Text → Bool) → List Text → Event → Monitor → Monitor
step repr known ids (refreshed source k connected) m =
    (refresh repr known ids source k connected m).1
step repr known ids (invalidated k started) m = invalidate k started m
step repr known ids (outputs i answer) m = compare i answer m
step repr known ids (returns i) m = return_result i m
step repr known ids (calls_back i) m = call_back i m
