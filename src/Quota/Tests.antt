-- ===== src/Quota/Tests.antt =====
-- The quota monitor at concrete events.
use hpc_client_gui.Base.{◌≡◌, refl, List, [], ◌∷◌, Bool, true, false, some}
use hpc_client_gui.Base.Text.{Text, codes, text_eq, strip, one_of}
use hpc_client_gui.Base.Json.{Json, bool, text, Members, empty, member, get, is_true}
use hpc_client_gui.Quota.{gate_of, quota_gate}
use hpc_client_gui.Quota.Monitor.{
  Monitor, Key, submitted, Job, no_jobs, is_over, refresh, output, compare, return_result,
  call_back, invalidate, Event, refreshed, invalidated, outputs, returns, calls_back, step,
}
use hpc_client_gui.Quota.Life.{withheld, run, invalidated_is_withheld}

abbrev no_text : Json → Text
no_text value = codes "x"

abbrev all_known : Text → Bool
all_known t = true

abbrev ids : List Text
ids = codes "lfs" ∷ []

abbrev source : Members
source = member (codes "command_template") (text (codes "lfs quota")) (
    member (codes "enabled") (bool true) (
      member (codes "backend_id") (text (codes "lfs"))
        (member (codes "consent") (bool true) empty)))

abbrev key : Key
key = record {
  connection_id = codes "c";
  provider_id = codes "p";
  source_id = [];
  subject = codes "u";
}

abbrev first_job : Job
first_job = record { key = key; generation = 0; backend = some (codes "lfs"); progress = submitted }

abbrev start : List Event
start = refreshed source key true ∷ []

started : (run no_text all_known ids start no_jobs).jobs 0 ≡ some first_job
unfolding run step refresh quota_gate gate_of get text_eq strip one_of is_true
started = refl

-- The callback of a job that goes on after its key is invalidated forgets the future of the next
-- job, so that a third one is submitted while that one runs.
abbrev overtaken : List Event
overtaken =
    refreshed source key true
    ∷ invalidated key true
    ∷ refreshed source key true
    ∷ outputs 0 (output (some 5))
    ∷ returns 0
    ∷ calls_back 0
    ∷ []

abbrev second_over : Bool
second_over = is_over ((run no_text all_known ids overtaken no_jobs).jobs 1)

not_coalesced :
    ((refresh no_text all_known ids source key true (run no_text all_known ids overtaken no_jobs)).0
      ≡ some 2)
    × (second_over ≡ false)
unfolding run step refresh invalidate compare return_result call_back quota_gate gate_of get text_eq
    strip one_of is_true
not_coalesced = (refl, refl)

-- A job that is invalidated between its comparison and its return has what its backend has read.
abbrev late : Monitor
late =
    run no_text all_known ids
      (refreshed source key true
        ∷ outputs 0 (output (some 5))
        ∷ invalidated key true
        ∷ returns 0
        ∷ [])
      no_jobs

late_is_shown : withheld (late.jobs 0) late ≡ false
unfolding run step refresh invalidate compare return_result quota_gate gate_of get text_eq strip
    one_of is_true
late_is_shown = refl

invalidated_is_withheld_example :
    let m =
      run no_text all_known ids
        (outputs 0 (output (some 5)) ∷ returns 0 ∷ [])
        (invalidate key true (run no_text all_known ids start no_jobs)) in
    withheld (m.jobs 0) m ≡ true
invalidated_is_withheld_example =
    invalidated_is_withheld no_text all_known ids start
      (outputs 0 (output (some 5)) ∷ returns 0 ∷ []) 0 first_job true started refl
