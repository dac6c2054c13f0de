-- ===== src/Config/Profiles/View/Upsert.antt =====
-- `upsert_profile` as an update of the map from ids to profiles.
use hpc_client_gui.Base.{
  ℕ, zero, suc, ◌≡◌, ◌⊎◌, ap, sym, ◌∙◌, List, [], ◌∷◌, true, false, not, is_empty, if◌then◌else◌,
  Option, none, some, arith, Bool-cases, inl, inr,
}
use hpc_client_gui.Base.Text.{Text, codes, text_eq, text_eq_iff}
use hpc_client_gui.Base.Json.{text, Members, get_or_null, put, as_text}
use hpc_client_gui.Base.Json.Laws.{get-put_same}
use hpc_client_gui.Config.Profiles.{field_is, item_at, as_elements, index_for}
use hpc_client_gui.Config.Profiles.View.{
  first, first-lookup, find_index-first, lookup, id_of, text_or_empty, HasId, IsStore,
}

abbrev pub or_profile : Option Members → Option Members → Option Members
or_profile (some p) q = some p
or_profile none q = q

-- The profile whose place the new one takes: that of its id, else the first of its name.
abbrev pub owner : Text → Text → List Members → Option Members
owner given name ps =
    let of_name = first (field_is (codes "name") name) ps in
    if is_empty given then of_name else or_profile (lookup given ps) of_name

-- The id that the new profile gets.
abbrev pub new_id : Text → Text → Option Members → Text
new_id given fresh place =
    if not (is_empty given) then given else (elim place [ none ↦ fresh | some p ↦ id_of p ])

pub index_for-owner :
    (given name : Text) (ps : List Members)
    → IsStore ps
    → ((index_for given name (as_elements ps) ≡ some none) × (owner given name ps ≡ none))
      ⊎ ((i : ℕ) × (p : Members) × (index_for given name (as_elements ps) ≡ some (some i))
          × (item_at i (as_elements ps) ≡ some p)
          × (owner given name ps ≡ some p))
index_for-owner given name ps h = elim (find_index-first (field_is (codes "name") name) ps) [
  | inl (missing, absent) ↦ elim (find_index-first (field_is (codes "id") given) ps) [
    | inl (missing_id, absent_id) ↦ inl (
      ground (arith, missing, missing_id),
      ground (arith, absent, absent_id, first-lookup given ps h),
    )
    | inr (i, p, found, at, there) ↦ elim (Bool-cases (is_empty given)) [
      | inl blank ↦ inl (ground (arith, missing, blank), ground (arith, absent, blank))
      | inr given_there ↦ inr (
        i,
        p,
        ground (arith, found, given_there),
        at,
        ground (arith, there, given_there, first-lookup given ps h),
      )
    ]
  ]
  | inr (k, q, found_name, at_name, there_name) ↦
      elim (find_index-first (field_is (codes "id") given) ps) [
        | inl (missing_id, absent_id) ↦ inr (
          k,
          q,
          ground (arith, found_name, missing_id),
          at_name,
          ground (arith, there_name, absent_id, first-lookup given ps h),
        )
        | inr (i, p, found, at, there) ↦ elim (Bool-cases (is_empty given)) [
          | inl blank ↦
              inr (
                k,
                q,
                ground (arith, found_name, blank),
                at_name,
                ground (arith, there_name, blank),
              )
          | inr given_there ↦ inr (
            i,
            p,
            ground (arith, found, given_there),
            at,
            ground (arith, there, given_there, first-lookup given ps h),
          )
        ]
      ]
]

pub lookup-id_of :
    (i : Text) (ps : List Members) (p : Members) → lookup i ps ≡ some p → text_eq i (id_of p) ≡ true
unfolding lookup
lookup-id_of i [] p e = ground (arith, e)
lookup-id_of i (q ∷ ps) p e =
    ground (arith, e, lookup-id_of i ps p, text_eq_iff (id_of q) i, text_eq_iff i (id_of q))

pub HasId-item_at :
    (i : ℕ) (ps : List Members) (p : Members)
    → IsStore ps
    → item_at i (as_elements ps) ≡ some p
    → HasId p
unfolding item_at as_elements
HasId-item_at i [] p h at = ground (arith, at)
HasId-item_at zero (q ∷ ps) p (has, fresh, h) at = ground (arith, has.0, has.1, at)
HasId-item_at (suc i) (q ∷ ps) p (has, fresh, h) at = HasId-item_at i ps p h at

-- The profile with another id.
abbrev pub with_id : Text → Members → Members
with_id i profile = put (codes "id") (text i) profile

pub id_of-with_id : (i : Text) (profile : Members) → id_of (with_id i profile) ≡ i
id_of-with_id i profile =
    ap (λ o. text_or_empty (as_text (get_or_null o))) (get-put_same (codes "id") (text i) profile)

pub HasId-with_id : (i : Text) (profile : Members) → is_empty i ≡ false → HasId (with_id i profile)
HasId-with_id i profile h = (
  get-put_same (codes "id") (text i) profile
      ∙ ap (λ j. some (text j)) (sym (id_of-with_id i profile)),
  ap is_empty (id_of-with_id i profile) ∙ h,
)
