-- ===== src/Transfer/Partial/Retry.antt =====
-- Attempts of an upload one after the other.
use hpc_client_gui.Base.{
  ◌≡◌, ◌⊎◌, refl, ap, sym, ◌∙◌, List, [], ◌∷◌, Bool, true, false, all, if◌then◌else◌, Option, none,
  some, arith, inl, inr,
}
use hpc_client_gui.Base.Text.{Text}
use hpc_client_gui.Transfer.Partial.{
  Store, Answers, Outcome, finished, raised, store_of, is_finished, then_with, absorb, partial_path,
  meta_path, move, judge, inspect, write_meta, prepare, upload_to, upload_remote,
}
use hpc_client_gui.Transfer.Partial.Prepare.{is_capable, Holds, is_resumable}
use hpc_client_gui.Transfer.Partial.Safe.{Arrived, Ended, upload_remote_lem}

-- The answers of a server that raises nothing.
abbrev pub no_faults : Bool → Answers
no_faults hides = record {
  renames = true;
  exists_fault = none;
  misses_partial = false;
  read_fault = none;
  remove_fault = none;
  remove_again_fault = none;
  write_fault = none;
  hides_size = hides;
  upload_fault = none;
  hides_size_again = hides;
  upload_again_fault = none;
  rename_fault = none;
  clean_fault = none;
}

module _ (remote identity source : Text) where
  safe :
      (env : Answers) (able : is_capable env ≡ true) (old : Option Text) (o : Outcome)
      → Holds
          (Arrived remote identity source env able old)
          (Ended remote identity source env able old)
          o
      → (is_resumable remote identity source (store_of o) ≡ true)
        × ((store_of o remote ≡ old) ⊎ (store_of o remote ≡ some source))
        × ((if is_finished o then store_of o remote else some source) ≡ some source)
  safe env able old (finished s) h = (h.0, inr h.1, h.1)
  safe env able old (raised e s) h = (h.0, h.1, refl)

  -- Whatever the calls of one attempt raise, the target has the bytes it had or all bytes of the
  -- source, never a part of them, and the latter where the attempt returns; and a partial file
  -- that is left with this description is a prefix of the source, if it was one before. The
  -- backend renames and has the calls that the description needs, and its `exists` does not miss
  -- a partial file that is there.
  pub upload_remote_safe :
      (env : Answers) (s : Store)
      → is_capable env ≡ true
      → is_resumable remote identity source s ≡ true
      → let o = upload_remote remote identity source env s in
        (is_resumable remote identity source (store_of o) ≡ true)
        × ((store_of o remote ≡ s remote) ⊎ (store_of o remote ≡ some source))
        × ((if is_finished o then store_of o remote else some source) ≡ some source)
  upload_remote_safe env s able h =
      safe env able (s remote) (upload_remote remote identity source env s)
        (upload_remote_lem remote identity source env able (s remote) s (refl, h))

  -- The files after attempts, each with answers of its own.
  unfoldable pub attempts : List Answers → Store → Store
  attempts [] s = s
  attempts (env ∷ envs) s = attempts envs (store_of (upload_remote remote identity source env s))

  is_finished-then_with :
      (o : Outcome) (next : Store → Outcome)
      → is_finished o ≡ true
      → ((s : Store) → is_finished (next s) ≡ true)
      → is_finished (then_with o next) ≡ true
  is_finished-then_with (finished s) next h step = step s
  is_finished-then_with (raised e s) next h step = h

  is_finished-absorb : (o : Outcome) → is_finished o ≡ true → is_finished (absorb o) ≡ true
  is_finished-absorb (finished s) h = refl
  is_finished-absorb (raised e s) h = ground (arith, h)

  judged :
      (hides : Bool) (said : Option Text) (s : Store)
      → is_finished (judge remote identity source (no_faults hides) said s) ≡ true
  judged hides none s = refl
  judged hides (some t) s = ground arith

  inspected :
      (hides : Bool) (part : Option Text) (s : Store)
      → is_finished (elim part [
        | none ↦ finished s
        | some old ↦ judge remote identity source (no_faults hides) (s (meta_path remote)) s
      ])
        ≡ true
  inspected hides none s = refl
  inspected hides (some t) s = judged hides (s (meta_path remote)) s

  prepared :
      (hides : Bool) (s : Store)
      → is_finished (prepare remote identity source (no_faults hides) s) ≡ true
  unfolding prepare
  prepared hides s = is_finished-absorb _ (
      is_finished-then_with (inspect remote identity source (no_faults hides) s)
        (write_meta remote identity source (no_faults hides))
        (inspected hides (s (partial_path remote)) s) (λ t. refl))

  returns :
      (hides : Bool) (s : Store)
      → is_finished (upload_remote remote identity source (no_faults hides) s) ≡ true
  unfolding upload_remote upload_to move
  returns hides s =
      is_finished-then_with (prepare remote identity source (no_faults hides) s) _
        (prepared hides s) (λ t. refl)

  attempts-safe :
      (envs : List Answers) (s : Store)
      → all is_capable envs ≡ true
      → is_resumable remote identity source s ≡ true
      → (is_resumable remote identity source (attempts envs s) ≡ true)
        × ((attempts envs s remote ≡ s remote) ⊎ (attempts envs s remote ≡ some source))
  unfolding attempts
  attempts-safe [] s able h = (h, inl refl)
  attempts-safe (env ∷ envs) s able h =
      let one = upload_remote_safe env s (ground (arith, able)) h in
      let rest =
        attempts-safe envs (store_of (upload_remote remote identity source env s))
          (ground (arith, able)) one.0 in
      (rest.0, kept one.1 rest.1)
    where
      kept :
          {a b c : Option Text}
          → (b ≡ a) ⊎ (b ≡ some source)
          → (c ≡ b) ⊎ (c ≡ some source)
          → (c ≡ a) ⊎ (c ≡ some source)
      kept one (inr there) = inr there
      kept (inl same) (inl e) = inl (e ∙ same)
      kept (inr there) (inl e) = inr (e ∙ there)

  -- However many attempts were cut off, wherever their calls raised, the target still has what it
  -- had before them or the whole source, and the next attempt whose calls do not raise returns
  -- and leaves the source as the target. The backend renames and has the calls that the
  -- description needs, and its `exists` never says no of a partial file that is there; a partial
  -- file with this description was a prefix of the source before.
  pub retry_succeeds :
      (envs : List Answers) (hides : Bool) (s : Store)
      → all is_capable envs ≡ true
      → is_resumable remote identity source s ≡ true
      → let before = attempts envs s in
        let o = upload_remote remote identity source (no_faults hides) before in
        ((before remote ≡ s remote) ⊎ (before remote ≡ some source))
        × (is_finished o ≡ true)
        × (store_of o remote ≡ some source)
  retry_succeeds envs hides s able h =
      let held = attempts-safe envs s able h in
      let before = attempts envs s in
      let o = upload_remote remote identity source (no_faults hides) before in
      let done = returns hides before in
      (
        held.1,
        done,
        sym (ap (λ b. if b then store_of o remote else some source) done)
            ∙ (upload_remote_safe (no_faults hides) before refl held.0).2,
      )
