-- ===== src/Config/Profiles/View/Removed.antt =====
-- The secrets and the visited directories that go with the profiles that `delete_profile` removes.
use hpc_client_gui.Base.{
  ◌++◌, ◌&&◌, ◌||◌, all, any, is_empty, true, ◌≡◌, refl, ap, ◌∙◌, List, [], ◌∷◌, Bool, false, not,
  arith, inl, inr, Bool-cases,
}
use hpc_client_gui.Base.Text.{Text, codes, text_eq}
use hpc_client_gui.Base.Json.{Json, Members, get, get_or_null, is_true}
use hpc_client_gui.Config.{str_of, str_or_empty}
use hpc_client_gui.Config.Profiles.{field_is}
use hpc_client_gui.Config.Profiles.Delete.{
  Removal, keychain_secret, profile_navigation, reference_of, still_used, secret_of, navigation_of,
  keep, removals,
}

abbrev pub is_other : Text → Members → Bool
is_other name p = not (field_is (codes "name") name p)

-- Whether this secret, or the directories visited with this profile, are deleted.
unfoldable pub deletes_secret : Text → List Removal → Bool
deletes_secret secret [] = false
deletes_secret secret (keychain_secret s ∷ rs) = text_eq s secret || deletes_secret secret rs
deletes_secret secret (profile_navigation i ∷ rs) = deletes_secret secret rs

unfoldable pub deletes_navigation : Text → List Removal → Bool
deletes_navigation j [] = false
deletes_navigation j (keychain_secret s ∷ rs) = deletes_navigation j rs
deletes_navigation j (profile_navigation i ∷ rs) = text_eq i j || deletes_navigation j rs

module _ (repr : Json → Text) (equal : Json → Json → Bool) (name : Text) where
  -- A profile of the name refers to the secret, and no profile of another name does.
  abbrev pub loses_secret : List Members → Text → Members → Bool
  loses_secret ps secret p =
      let reference = reference_of repr equal p in
      field_is (codes "name") name p
      && is_true reference
      && text_eq (str_of repr reference) secret
      && all
          (λ q. field_is (codes "name") name q || not (equal (reference_of repr equal q) reference))
          ps

  -- A profile of the name has the id.
  abbrev pub loses_navigation : Text → Members → Bool
  loses_navigation i p =
      let profile_id = str_or_empty repr (get_or_null (get (codes "id") p)) in
      field_is (codes "name") name p && not (is_empty profile_id) && text_eq profile_id i

  still_used-keep :
      (reference : Json) (ps : List Members)
      → is_true reference ≡ true
      → still_used repr equal reference (keep (is_other name) ps)
        ≡ not (
            all
              (λ q.
                field_is (codes "name") name q || not (equal (reference_of repr equal q) reference))
              ps)
  unfolding still_used keep
  still_used-keep reference [] there = refl
  still_used-keep reference (p ∷ ps) there =
      ground (arith, there, still_used-keep reference ps there)

  deletes_secret-append :
      (secret : Text) (xs ys : List Removal)
      → deletes_secret secret (xs ++ ys) ≡ (deletes_secret secret xs || deletes_secret secret ys)
  unfolding deletes_secret
  deletes_secret-append secret [] ys = refl
  deletes_secret-append secret (keychain_secret s ∷ xs) ys =
      ground (arith, deletes_secret-append secret xs ys)
  deletes_secret-append secret (profile_navigation i ∷ xs) ys =
      ground (arith, deletes_secret-append secret xs ys)

  deletes_navigation-append :
      (i : Text) (xs ys : List Removal)
      → deletes_navigation i (xs ++ ys) ≡ (deletes_navigation i xs || deletes_navigation i ys)
  unfolding deletes_navigation
  deletes_navigation-append i [] ys = refl
  deletes_navigation-append i (keychain_secret s ∷ xs) ys =
      ground (arith, deletes_navigation-append i xs ys)
  deletes_navigation-append i (profile_navigation j ∷ xs) ys =
      ground (arith, deletes_navigation-append i xs ys)

  deletes_secret-of :
      (ps : List Members) (secret : Text) (p : Members)
      → field_is (codes "name") name p ≡ true
      → deletes_secret secret
          (secret_of repr equal (keep (is_other name) ps) p ++ navigation_of repr equal p)
        ≡ loses_secret ps secret p
  unfolding deletes_secret
  deletes_secret-of ps secret p named = elim (Bool-cases (is_true (reference_of repr equal p))) [
    | inl there ↦ ground (arith, named, there, still_used-keep (reference_of repr equal p) ps there)
    | inr blank ↦ ground (arith, named, blank)
  ]

  deletes_navigation-of :
      (ps : List Members) (i : Text) (p : Members)
      → field_is (codes "name") name p ≡ true
      → deletes_navigation i
          (secret_of repr equal (keep (is_other name) ps) p ++ navigation_of repr equal p)
        ≡ loses_navigation i p
  unfolding deletes_navigation
  deletes_navigation-of ps i p named = ground (arith, named)

  -- The list of the profiles of the name, with one more in front.
  keep-named :
      (q : Members) (qs : List Members)
      → field_is (codes "name") name q ≡ true
      → keep (field_is (codes "name") name) (q ∷ qs) ≡ q ∷ keep (field_is (codes "name") name) qs
  unfolding keep
  keep-named q qs named = ground (arith, named)

  keep-other :
      (q : Members) (qs : List Members)
      → field_is (codes "name") name q ≡ false
      → keep (field_is (codes "name") name) (q ∷ qs) ≡ keep (field_is (codes "name") name) qs
  unfolding keep
  keep-other q qs other = ground (arith, other)

  -- The secrets deleted with the profiles of the name, whatever else the list has.
  pub deletes_secret-removals :
      (ps : List Members) (secret : Text) (qs : List Members)
      → deletes_secret secret
          (removals repr equal (keep (is_other name) ps) (keep (field_is (codes "name") name) qs))
        ≡ any (loses_secret ps secret) qs
  unfolding removals keep deletes_secret
  deletes_secret-removals ps secret [] = refl
  deletes_secret-removals ps secret (q ∷ qs) =
      let kept = keep (is_other name) ps in
      let rest = removals repr equal kept (keep (field_is (codes "name") name) qs) in
      elim (Bool-cases (field_is (codes "name") name q)) [
        | inl named ↦
            ap (λ l. deletes_secret secret (removals repr equal kept l)) (keep-named q qs named)
            ∙ deletes_secret-append secret
                (secret_of repr equal kept q ++ navigation_of repr equal q) rest
            ∙ ap (λ b. b || deletes_secret secret rest) (deletes_secret-of ps secret q named)
            ∙ ap (λ b. loses_secret ps secret q || b) (deletes_secret-removals ps secret qs)
        | inr other ↦
            ap (λ l. deletes_secret secret (removals repr equal kept l)) (keep-other q qs other)
            ∙ deletes_secret-removals ps secret qs
            ∙ ground (arith, other)
      ]

  -- The directories visited.
  pub deletes_navigation-removals :
      (ps : List Members) (i : Text) (qs : List Members)
      → deletes_navigation i
          (removals repr equal (keep (is_other name) ps) (keep (field_is (codes "name") name) qs))
        ≡ any (loses_navigation i) qs
  unfolding removals keep deletes_navigation
  deletes_navigation-removals ps i [] = refl
  deletes_navigation-removals ps i (q ∷ qs) =
      let kept = keep (is_other name) ps in
      let rest = removals repr equal kept (keep (field_is (codes "name") name) qs) in
      elim (Bool-cases (field_is (codes "name") name q)) [
        | inl named ↦
            ap (λ l. deletes_navigation i (removals repr equal kept l)) (keep-named q qs named)
            ∙ deletes_navigation-append i
                (secret_of repr equal kept q ++ navigation_of repr equal q) rest
            ∙ ap (λ b. b || deletes_navigation i rest) (deletes_navigation-of ps i q named)
            ∙ ap (λ b. loses_navigation i q || b) (deletes_navigation-removals ps i qs)
        | inr other ↦
            ap (λ l. deletes_navigation i (removals repr equal kept l)) (keep-other q qs other)
            ∙ deletes_navigation-removals ps i qs
            ∙ ground (arith, other)
      ]
