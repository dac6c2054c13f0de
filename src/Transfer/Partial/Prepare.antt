-- ===== src/Transfer/Partial/Prepare.antt =====
-- What is known of the files of the server before the upload of one attempt starts.
use hpc_client_gui.Base.{
  ℕ, ◌≡◌, refl, ap, [], ◌∷◌, ◌++◌, Bool, true, false, not, ◌&&◌, if◌then◌else◌, Option, none, some,
  arith,
}
use hpc_client_gui.Base.Text.{Text, codes, text_eq, text_eq_refl, starts_with}
use hpc_client_gui.Transfer.Partial.{
  Store, set_file, Fault, unsupported, not_found, mistyped, broken, Answers, Outcome, finished,
  raised, then_with, contents_of, absorb, partial_path, meta_path, call, without_partial,
  remove_again, judge, inspect, prepare,
}

pub text_eq-longer :
    (s : Text) (c : ℕ) (t : Text)
    → (text_eq (s ++ (c ∷ t)) s ≡ false) × (text_eq s (s ++ (c ∷ t)) ≡ false)
unfolding text_eq
text_eq-longer [] c t = (refl, refl)
text_eq-longer (d ∷ s) c t = ground (arith, text_eq-longer s c t)

text_eq-longer_twice : (s : Text) (c : ℕ) (t u : Text) → text_eq s ((s ++ (c ∷ t)) ++ u) ≡ false
unfolding text_eq
text_eq-longer_twice [] c t u = refl
text_eq-longer_twice (d ∷ s) c t u = ground (arith, text_eq-longer_twice s c t u)

abbrev pub is_unsupported : Fault → Bool
is_unsupported unsupported = true
is_unsupported not_found = false
is_unsupported mistyped = false
is_unsupported broken = false

abbrev pub is_fault : Option Fault → Bool
is_fault none = false
is_fault (some e) = is_unsupported e

abbrev pub write_unsupported : Option (Fault × Option Text) → Bool
write_unsupported none = false
write_unsupported (some (e, left)) = is_unsupported e

-- The backend has the calls that the description of a partial file needs, and renames, and its
-- `exists` does not miss a partial file that is there.
abbrev pub is_capable : Answers → Bool
is_capable env =
    env.renames
    && not (is_fault env.exists_fault)
    && not env.misses_partial
    && not (is_fault env.remove_again_fault)
    && not (write_unsupported env.write_fault)

abbrev pub is_text : Text → Option Text → Bool
is_text identity none = false
is_text identity (some said) = text_eq said identity

-- What holds of the files where an attempt ends one way or the other.
abbrev pub Holds : (Store → Type 0) → (Fault → Store → Type 0) → Outcome → Type 0
Holds P Q (finished s) = P s
Holds P Q (raised e s) = Q e s

pub Holds-then_with :
    (P R : Store → Type 0) (Q : Fault → Store → Type 0) (o : Outcome) (next : Store → Outcome)
    → Holds P Q o
    → ((s : Store) → P s → Holds R Q (next s))
    → Holds R Q (then_with o next)
Holds-then_with P R Q (finished s) next h step = step s h
Holds-then_with P R Q (raised e s) next h step = h

pub Holds-call :
    (P : Store → Type 0) (Q : Fault → Store → Type 0) (fault : Option Fault) (before after : Store)
    → P after
    → ((e : Fault) → fault ≡ some e → Q e before)
    → Holds P Q (call fault before after)
Holds-call P Q none before after good bad = good
Holds-call P Q (some e) before after good bad = bad e refl

pub Holds-if :
    (P : Store → Type 0) (Q : Fault → Store → Type 0) (b : Bool) (o u : Outcome)
    → (b ≡ true → Holds P Q o)
    → (b ≡ false → Holds P Q u)
    → Holds P Q (if b then o else u)
Holds-if P Q true o u h g = h refl
Holds-if P Q false o u h g = g refl

module _ (remote identity source : Text) where
  -- A partial file with this description is a prefix of the source.
  abbrev pub is_resumable : Store → Bool
  is_resumable s =
      if is_text identity (s (meta_path remote))
      then starts_with source (contents_of (s (partial_path remote)))
      else true

  pub paths_differ :
      (text_eq (partial_path remote) remote ≡ false)
      × (text_eq remote (partial_path remote) ≡ false)
      × (text_eq (meta_path remote) (partial_path remote) ≡ false)
      × (text_eq (partial_path remote) (meta_path remote) ≡ false)
      × (text_eq remote (meta_path remote) ≡ false)
  paths_differ =
      let part = text_eq-longer remote b'.' (codes "part") in
      let meta = text_eq-longer (partial_path remote) b'.' (codes "meta") in
      (
        part.0,
        part.1,
        meta.0,
        meta.1,
        text_eq-longer_twice remote b'.' (codes "part") (codes ".meta"),
      )

  -- The target has what it had, and a partial file with this description is a prefix.
  abbrev pub Sound : Option Text → Store → Type 0
  Sound old s = (s remote ≡ old) × (is_resumable s ≡ true)

  -- The partial file, if there is one, is a prefix of the source whatever is said of it.
  abbrev pub Ready : Option Text → Store → Type 0
  Ready old s =
      (s remote ≡ old) × (starts_with source (contents_of (s (partial_path remote))) ≡ true)

  abbrev pub Failed : Option Text → Fault → Store → Type 0
  Failed old e s = (is_unsupported e ≡ false) × Sound old s

  pub Sound-Ready : (old : Option Text) (s : Store) → Ready old s → Sound old s
  Sound-Ready old s (kept, prefix) = (kept, ground (arith, prefix))

  module _ (env : Answers) (able : is_capable env ≡ true) (old : Option Text) where
    Ready-without_partial :
        (s : Store) → Sound old s → Ready old (without_partial remote identity source s)
    unfolding starts_with
    Ready-without_partial s sound =
        (ground (arith, sound.0, paths_differ), ground (arith, text_eq_refl (partial_path remote)))

    remove_again_lem :
        (s : Store)
        → Sound old s
        → Holds (Ready old) (Failed old) (remove_again remote identity source env s)
    remove_again_lem s sound =
        Holds-call (Ready old) (Failed old) env.remove_again_fault s
          (without_partial remote identity source s) (Ready-without_partial s sound)
          (λ e fault. (ground (arith, able, fault), sound))

    removed_lem :
        (fault : Option Fault) (s : Store)
        → Sound old s
        → Holds (Ready old) (Failed old) (elim fault [
          | none ↦ finished (without_partial remote identity source s)
          | some e ↦ remove_again remote identity source env s
        ])
    removed_lem none s sound = Ready-without_partial s sound
    removed_lem (some e) s sound = remove_again_lem s sound

    judge_lem :
        (said : Option Text) (s : Store)
        → s (meta_path remote) ≡ said
        → Sound old s
        → Holds (Ready old) (Failed old) (judge remote identity source env said s)
    judge_lem none s e sound = remove_again_lem s sound
    judge_lem (some t) s e sound =
        Holds-if (Ready old) (Failed old) (text_eq t identity) (finished s) _
          (λ same. (sound.0, ground (arith, sound.1, ap (is_text identity) e, same)))
          (λ other. removed_lem env.remove_fault s sound)

    inspected_lem :
        (part : Option Text) (fault : Option Fault) (s : Store)
        → s (partial_path remote) ≡ part
        → Sound old s
        → Holds (Ready old) (Failed old) (elim part [
          | none ↦ finished s
          | some t ↦ if env.misses_partial then finished s else (elim fault [
            | none ↦ judge remote identity source env (s (meta_path remote)) s
            | some e ↦ remove_again remote identity source env s
          ])
        ])
    unfolding starts_with
    inspected_lem none fault s e sound = (sound.0, ap (λ o. starts_with source (contents_of o)) e)
    inspected_lem (some t) none s e sound =
        Holds-if (Ready old) (Failed old) env.misses_partial (finished s) _
          (λ missed. ground (arith, able, missed))
          (λ seen. judge_lem (s (meta_path remote)) s refl sound)
    inspected_lem (some t) (some f) s e sound =
        Holds-if (Ready old) (Failed old) env.misses_partial (finished s) _
          (λ missed. ground (arith, able, missed)) (λ seen. remove_again_lem s sound)

    write_meta_lem :
        (fault : Option (Fault × Option Text)) (s : Store)
        → write_unsupported fault ≡ false
        → Ready old s
        → Holds (Ready old) (Failed old) (elim fault [
          | none ↦ finished (set_file (meta_path remote) (some identity) s)
          | some (e, left) ↦ raised e (set_file (meta_path remote) left s)
        ])
    write_meta_lem none s able_to h =
        (ground (arith, h.0, paths_differ), ground (arith, h.1, paths_differ))
    write_meta_lem (some (e, left)) s able_to h =
        (able_to, (ground (arith, h.0, paths_differ), ground (arith, h.1, paths_differ)))

    absorb_lem :
        (o : Outcome) → Holds (Ready old) (Failed old) o → Holds (Ready old) (Failed old) (absorb o)
    absorb_lem (finished s) h = h
    absorb_lem (raised unsupported s) h = ground (arith, h.0)
    absorb_lem (raised not_found s) h = h
    absorb_lem (raised mistyped s) h = h
    absorb_lem (raised broken s) h = h

    pub prepare_lem :
        (s : Store)
        → Sound old s
        → Holds (Ready old) (Failed old) (prepare remote identity source env s)
    unfolding prepare
    prepare_lem s sound = absorb_lem _ (
        Holds-then_with (Sound old) (Ready old) (Failed old) (call env.exists_fault s s) _
          (Holds-call (Sound old) (Failed old) env.exists_fault s s sound
            (λ e fault. (ground (arith, able, fault), sound)))
          (λ t ok.
            Holds-then_with (Ready old) (Ready old) (Failed old)
              (inspect remote identity source env t) _
              (inspected_lem (t (partial_path remote)) env.read_fault t refl ok)
              (λ u ready. write_meta_lem env.write_fault u (ground (arith, able)) ready)))
