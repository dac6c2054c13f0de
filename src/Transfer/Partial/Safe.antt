-- ===== src/Transfer/Partial/Safe.antt =====
-- What one attempt of an upload may do to the files of the server.
use hpc_client_gui.Base.{ℕ, ◌≡◌, ◌⊎◌, ap, Bool, true, not, Option, none, some, arith, inl, inr}
use hpc_client_gui.Base.Text.{Text, text_eq_refl, starts_with}
use hpc_client_gui.Transfer.Partial.{
  Store, set_file, Fault, unsupported, not_found, mistyped, broken, Answers, Outcome, finished,
  raised, contents_of, move, once_more, absorb_missing, partial_path, meta_path, call,
  without_partial, prepare, upload_to, rename_partial, clean, upload_remote,
}
use hpc_client_gui.Transfer.Partial.Prefix.{uploaded-whole, uploaded-prefix, starts_with-same}
use hpc_client_gui.Transfer.Partial.Prepare.{
  is_capable, Holds, Holds-then_with, Holds-call, Holds-if, is_resumable, paths_differ, Sound,
  Ready, Failed, Sound-Ready, prepare_lem,
}

module _ (remote identity source : Text) (env : Answers) (able : is_capable env ≡ true)
    (old : Option Text) where
  -- The partial file is whole.
  abbrev Uploaded : Store → Type 0
  Uploaded s = (s remote ≡ old) × (s (partial_path remote) ≡ some source)

  -- The target has what it had or the source, and what is left can be resumed.
  abbrev pub Ended : Fault → Store → Type 0
  Ended e s =
      (is_resumable remote identity source s ≡ true) × ((s remote ≡ old) ⊎ (s remote ≡ some source))

  abbrev pub Arrived : Store → Type 0
  Arrived s = (is_resumable remote identity source s ≡ true) × (s remote ≡ some source)

  -- Where a call raises, the partial file is still a prefix.
  move_lem :
      (hides : Bool) (fault : Option (Fault × Option ℕ)) (s : Store)
      → Ready remote identity source old s
      → Holds Uploaded
          (λ e. Ready remote identity source old)
          (move source hides fault (partial_path remote) s)
  unfolding move
  move_lem hides none s h = (
    ground (arith, h.0, paths_differ remote identity source),
    ground (
      arith,
      text_eq_refl (partial_path remote),
      uploaded-whole source (contents_of (s (partial_path remote))) hides h.1,
    ),
  )
  move_lem hides (some (e, none)) s h = h
  move_lem hides (some (e, some n)) s h = (
    ground (arith, h.0, paths_differ remote identity source),
    ground (
      arith,
      text_eq_refl (partial_path remote),
      uploaded-prefix source (contents_of (s (partial_path remote))) hides n h.1,
    ),
  )

  Ended-Ready : (e : Fault) (s : Store) → Ready remote identity source old s → Ended e s
  Ended-Ready e s h = ((Sound-Ready remote identity source old s h).1, inl h.0)

  raised_lem :
      (o : Outcome)
      → Holds Uploaded (λ e. Ready remote identity source old) o
      → Holds Uploaded Ended o
  raised_lem (finished s) h = h
  raised_lem (raised e s) h = Ended-Ready e s h

  once_more_lem :
      (o : Outcome) (again : Store → Outcome)
      → Holds Uploaded (λ e. Ready remote identity source old) o
      → ((s : Store)
          → Ready remote identity source old s
          → Holds Uploaded (λ e. Ready remote identity source old) (again s))
      → Holds Uploaded Ended (once_more o again)
  once_more_lem (finished s) again h step = h
  once_more_lem (raised unsupported s) again h step = Ended-Ready unsupported s h
  once_more_lem (raised not_found s) again h step = Ended-Ready not_found s h
  once_more_lem (raised mistyped s) again h step = raised_lem (again s) (step s h)
  once_more_lem (raised broken s) again h step = Ended-Ready broken s h

  resumable_none :
      (s : Store) → s (partial_path remote) ≡ none → is_resumable remote identity source s ≡ true
  unfolding starts_with
  resumable_none s e = ground (arith, ap (λ o. starts_with source (contents_of o)) e)

  rename_lem :
      (s : Store) → Uploaded s → Holds Arrived Ended (rename_partial remote identity source env s)
  rename_lem s h =
      let after =
        without_partial remote identity source (set_file remote (s (partial_path remote)) s) in
      Holds-call Arrived Ended env.rename_fault s after
        (
          resumable_none after (ground (arith, text_eq_refl (partial_path remote))),
          ground (arith, h.1, paths_differ remote identity source, text_eq_refl remote),
        )
        (λ e fault. (
          ground (arith, ap (λ o. starts_with source (contents_of o)) h.1, starts_with-same source),
          inl h.0,
        ))

  clean_lem : (s : Store) → Arrived s → Holds Arrived Ended (clean remote identity source env s)
  clean_lem s h = absorbed (call env.clean_fault s (set_file (meta_path remote) none s)) (
      Holds-call Arrived (λ e. Arrived) env.clean_fault s (set_file (meta_path remote) none s)
        (
          ground (arith, text_eq_refl (meta_path remote)),
          ground (arith, h.1, paths_differ remote identity source),
        )
        (λ e fault. h))
    where
      absorbed :
          (o : Outcome) → Holds Arrived (λ e. Arrived) o → Holds Arrived Ended (absorb_missing o)
      absorbed (finished s) h = h
      absorbed (raised unsupported s) h = h
      absorbed (raised not_found s) h = h
      absorbed (raised mistyped s) h = (h.0, inr h.1)
      absorbed (raised broken s) h = (h.0, inr h.1)

  pub upload_remote_lem :
      (s : Store)
      → Sound remote identity source old s
      → Holds Arrived Ended (upload_remote remote identity source env s)
  unfolding upload_remote upload_to
  upload_remote_lem s sound =
      Holds-if Arrived Ended (not env.renames) _ _ (λ unable. ground (arith, able, unable))
        (λ renames.
          Holds-then_with (Ready remote identity source old) Arrived Ended
            (prepare remote identity source env s) _
            (weaken (prepare remote identity source env s)
              (prepare_lem remote identity source env able old s sound))
            (λ t ready.
              Holds-then_with Uploaded Arrived Ended
                (upload_to remote identity source env (partial_path remote) t) _
                (once_more_lem _ _ (move_lem env.hides_size env.upload_fault t ready)
                  (move_lem env.hides_size_again env.upload_again_fault))
                (λ u whole.
                  Holds-then_with Arrived Arrived Ended
                    (rename_partial remote identity source env u) _ (rename_lem u whole)
                    (λ v there. clean_lem v there))))
    where
      weaken :
          (o : Outcome)
          → Holds (Ready remote identity source old) (Failed remote identity source old) o
          → Holds (Ready remote identity source old) Ended o
      weaken (finished s) h = h
      weaken (raised e s) h = (h.1.1, inl h.1.0)
