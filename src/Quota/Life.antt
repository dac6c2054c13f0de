-- ===== src/Quota/Life.antt =====
-- What holds of the monitor whatever is called and whenever jobs end.
use hpc_client_gui.Base.{
  ℕ, ◌≡◌, refl, ap, sym, ◌∙◌, List, [], ◌∷◌, Bool, true, false, ◌&&◌, ltb, leb, Option, none, some,
  arith,
}
use hpc_client_gui.Base.Text.{Text, text_eq_refl}
use hpc_client_gui.Base.Json.{Json, Members}
use hpc_client_gui.Quota.Monitor.{
  Key, key_eq, stale, QuotaResult, Progress, submitted, cancelled, compared, returned, done,
  no_backend, failed, read_out, Job, Monitor, no_jobs, submit, refresh, Answer, compare,
  return_result, call_back, cancel, bump, backend_of, invalidate, Event, refreshed, invalidated,
  outputs, returns, calls_back, step,
}

-- What may be shown of a job of a past generation: nothing that a backend has read.
abbrev pub is_no_reading : QuotaResult → Bool
is_no_reading stale = true
is_no_reading failed = true
is_no_reading no_backend = false
is_no_reading (read_out n) = false

abbrev pub is_withheld : Progress → Bool
is_withheld submitted = true
is_withheld cancelled = true
is_withheld (compared r) = is_no_reading r
is_withheld (returned r) = is_no_reading r
is_withheld (done r) = is_no_reading r

abbrev pub withheld : Option Job → Monitor → Bool
withheld none m = false
withheld (some job) m = ltb job.generation (m.generations job.key) && is_withheld job.progress

abbrev sound : ℕ → Option Job → Monitor → Bool
sound i none m = true
sound i (some job) m = leb job.generation (m.generations job.key) && ltb i m.submissions

withheld-compare :
    (i j : ℕ) (answer : Answer) (m : Monitor)
    → withheld (m.jobs i) m ≡ true
    → withheld ((compare j answer m).jobs i) (compare j answer m) ≡ true
unfolding compare
withheld-compare i j answer m h = ground (arith, h)

withheld-return_result :
    (i j : ℕ) (m : Monitor)
    → withheld (m.jobs i) m ≡ true
    → withheld ((return_result j m).jobs i) (return_result j m) ≡ true
unfolding return_result
withheld-return_result i j m h = ground (arith, h)

withheld-call_back :
    (i j : ℕ) (m : Monitor)
    → withheld (m.jobs i) m ≡ true
    → withheld ((call_back j m).jobs i) (call_back j m) ≡ true
unfolding call_back
withheld-call_back i j m h = ground (arith, h)

withheld-cancel :
    (i : ℕ) (started : Bool) (o : Option ℕ) (m : Monitor)
    → withheld (m.jobs i) m ≡ true
    → withheld ((cancel started o m).jobs i) (cancel started o m) ≡ true
withheld-cancel i started none m h = h
withheld-cancel i started (some j) m h = ground (arith, h)

sound-cancel :
    (i : ℕ) (started : Bool) (o : Option ℕ) (m : Monitor)
    → sound i (m.jobs i) m ≡ true
    → sound i ((cancel started o m).jobs i) (cancel started o m) ≡ true
sound-cancel i started none m h = h
sound-cancel i started (some j) m h = ground (arith, h)

sound-compare :
    (i j : ℕ) (answer : Answer) (m : Monitor)
    → sound i (m.jobs i) m ≡ true
    → sound i ((compare j answer m).jobs i) (compare j answer m) ≡ true
unfolding compare
sound-compare i j answer m h = ground (arith, h)

sound-return_result :
    (i j : ℕ) (m : Monitor)
    → sound i (m.jobs i) m ≡ true
    → sound i ((return_result j m).jobs i) (return_result j m) ≡ true
unfolding return_result
sound-return_result i j m h = ground (arith, h)

sound-call_back :
    (i j : ℕ) (m : Monitor)
    → sound i (m.jobs i) m ≡ true
    → sound i ((call_back j m).jobs i) (call_back j m) ≡ true
unfolding call_back
sound-call_back i j m h = ground (arith, h)

withheld-bump :
    (i : ℕ) (k : Key) (m : Monitor)
    → withheld (m.jobs i) m ≡ true
    → withheld ((bump k m).jobs i) (bump k m) ≡ true
withheld-bump i k m h = ground (arith, h)

sound-bump :
    (i : ℕ) (k : Key) (m : Monitor)
    → sound i (m.jobs i) m ≡ true
    → sound i ((bump k m).jobs i) (bump k m) ≡ true
sound-bump i k m h = ground (arith, h)

module _ (repr : Json → Text) (known : Text → Bool) (ids : List Text) where
  -- A job that is there is below the number of submissions.
  withheld-submit :
      (i : ℕ) (k : Key) (backend : Option Text) (m : Monitor)
      → sound i (m.jobs i) m ≡ true
      → withheld (m.jobs i) m ≡ true
      → withheld ((submit k backend m).1.jobs i) (submit k backend m).1 ≡ true
  withheld-submit i k backend m s h = ground (arith, s, h)

  sound-submit :
      (i : ℕ) (k : Key) (backend : Option Text) (m : Monitor)
      → sound i (m.jobs i) m ≡ true
      → sound i ((submit k backend m).1.jobs i) (submit k backend m).1 ≡ true
  sound-submit i k backend m s = ground (arith, s)

  withheld-refresh :
      (i : ℕ) (source : Members) (k : Key) (connected : Bool) (m : Monitor)
      → sound i (m.jobs i) m ≡ true
      → withheld (m.jobs i) m ≡ true
      → withheld
          ((refresh repr known ids source k connected m).1.jobs i)
          (refresh repr known ids source k connected m).1
        ≡ true
  unfolding refresh
  withheld-refresh i source k connected m s h =
      ground (arith, h, withheld-submit i k (backend_of repr known ids source) m s h)

  sound-refresh :
      (i : ℕ) (source : Members) (k : Key) (connected : Bool) (m : Monitor)
      → sound i (m.jobs i) m ≡ true
      → sound i
          ((refresh repr known ids source k connected m).1.jobs i)
          (refresh repr known ids source k connected m).1
        ≡ true
  unfolding refresh
  sound-refresh i source k connected m s =
      ground (arith, s, sound-submit i k (backend_of repr known ids source) m s)

  sound-step :
      (i : ℕ) (e : Event) (m : Monitor)
      → sound i (m.jobs i) m ≡ true
      → sound i ((step repr known ids e m).jobs i) (step repr known ids e m) ≡ true
  unfolding step invalidate
  sound-step i (refreshed source k connected) m s = sound-refresh i source k connected m s
  sound-step i (invalidated k started) m s =
      sound-cancel i started (m.pending k) (bump k m) (sound-bump i k m s)
  sound-step i (outputs j answer) m s = sound-compare i j answer m s
  sound-step i (returns j) m s = sound-return_result i j m s
  sound-step i (calls_back j) m s = sound-call_back i j m s

  withheld-step :
      (i : ℕ) (e : Event) (m : Monitor)
      → sound i (m.jobs i) m ≡ true
      → withheld (m.jobs i) m ≡ true
      → withheld ((step repr known ids e m).jobs i) (step repr known ids e m) ≡ true
  unfolding step invalidate
  withheld-step i (refreshed source k connected) m s h = withheld-refresh i source k connected m s h
  withheld-step i (invalidated k started) m s h =
      withheld-cancel i started (m.pending k) (bump k m) (withheld-bump i k m h)
  withheld-step i (outputs j answer) m s h = withheld-compare i j answer m h
  withheld-step i (returns j) m s h = withheld-return_result i j m h
  withheld-step i (calls_back j) m s h = withheld-call_back i j m h

  unfoldable pub run : List Event → Monitor → Monitor
  run [] m = m
  run (e ∷ es) m = run es (step repr known ids e m)

  sound-run :
      (i : ℕ) (es : List Event) (m : Monitor)
      → sound i (m.jobs i) m ≡ true
      → sound i ((run es m).jobs i) (run es m) ≡ true
  unfolding run
  sound-run i [] m s = s
  sound-run i (e ∷ es) m s = sound-run i es (step repr known ids e m) (sound-step i e m s)

  withheld-run :
      (i : ℕ) (es : List Event) (m : Monitor)
      → sound i (m.jobs i) m ≡ true
      → withheld (m.jobs i) m ≡ true
      → withheld ((run es m).jobs i) (run es m) ≡ true
  unfolding run
  withheld-run i [] m s h = h
  withheld-run i (e ∷ es) m s h =
      withheld-run i es (step repr known ids e m) (sound-step i e m s) (withheld-step i e m s h)

  key_eq_refl : (k : Key) → key_eq k k ≡ true
  key_eq_refl k = ground (
    arith,
    text_eq_refl k.connection_id,
    text_eq_refl k.provider_id,
    text_eq_refl k.source_id,
    text_eq_refl k.subject,
  )

  withheld-own_bump :
      (i : ℕ) (job : Job) (m : Monitor)
      → m.jobs i ≡ some job
      → job.progress ≡ submitted
      → sound i (m.jobs i) m ≡ true
      → withheld ((bump job.key m).jobs i) (bump job.key m) ≡ true
  withheld-own_bump i job m there waiting s =
      ap (λ o. withheld o (bump job.key m)) there
      ∙ ground (
        arith,
        key_eq_refl job.key,
        waiting,
        ap is_withheld waiting,
        sym (ap (λ o. sound i o m) there) ∙ s,
      )

  -- From the start of the monitor on: once the key of a job that has not compared the generations
  -- yet is invalidated, whatever is called afterwards and whenever jobs go on, the job never has a
  -- result that a backend has read: it waits, is cancelled, or ends with stale or an error.
  pub invalidated_is_withheld :
      (before after : List Event) (i : ℕ) (job : Job) (started : Bool)
      → (run before no_jobs).jobs i ≡ some job
      → job.progress ≡ submitted
      → let m = run after (invalidate job.key started (run before no_jobs)) in
        withheld (m.jobs i) m ≡ true
  unfolding invalidate
  invalidated_is_withheld before after i job started there waiting =
      let m = run before no_jobs in
      let s = sound-run i before no_jobs refl in
      withheld-run i after (cancel started (m.pending job.key) (bump job.key m))
        (sound-cancel i started (m.pending job.key) (bump job.key m) (sound-bump i job.key m s))
        (withheld-cancel i started (m.pending job.key) (bump job.key m)
          (withheld-own_bump i job m there waiting s))
