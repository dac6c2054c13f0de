-- ===== src/Transfer/Download/Laws.antt =====
-- What a download leaves, and what arrives.
use hpc_client_gui.Base.{
  ℕ, ◌≡◌, refl, ap, [], ◌∷◌, ◌++◌, Bool, true, false, if◌then◌else◌, take, Option, none, some,
  arith,
}
use hpc_client_gui.Base.Text.{Text, codes, text_eq, text_eq_refl, starts_with}
use hpc_client_gui.Transfer.Mode.{
  Mode, auto, binary, ascii, Resolved, mode, value_error, sample_size, resolve_transfer_mode,
}
use hpc_client_gui.Transfer.Partial.{
  Store, set_file, Fault, unsupported, not_found, mistyped, broken, Outcome, finished, raised, move,
  once_more, contents_of, uploaded, partial_path, meta_path,
}
use hpc_client_gui.Transfer.Partial.Prefix.{uploaded-whole, uploaded-prefix, starts_with-same}
use hpc_client_gui.Transfer.Partial.Prepare.{is_resumable, paths_differ, text_eq-longer}
use hpc_client_gui.Transfer.Download.{
  Replies, conclude, download_part, Downloaded, received, unfit, files_of, is_received,
  converted_path, describe, replace_whole, replace_converted, finish, convert,
}

text_eq-append : (s t u : Text) → text_eq (s ++ t) (s ++ u) ≡ text_eq t u
unfolding text_eq
text_eq-append [] t u = refl
text_eq-append (c ∷ s) t u = ground (arith, text_eq-append s t u)

text_eq-append_twice : (s p m t : Text) → text_eq ((s ++ p) ++ m) (s ++ t) ≡ text_eq (p ++ m) t
unfolding text_eq
text_eq-append_twice [] p m t = refl
text_eq-append_twice (c ∷ s) p m t = ground (arith, text_eq-append_twice s p m t)

module _ (destination identity source : Text) where
  -- The destination is what it was unless the file is received, and what is left of a partial
  -- file with this description is a prefix of the source.
  abbrev pub Safe : Option Text → Downloaded → Type 0
  Safe old o =
      (is_resumable destination identity source (files_of o) ≡ true)
      × ((if is_received o then old else files_of o destination) ≡ old)

  -- The partial file is a prefix of the source.
  abbrev pub Begun : Option Text → Store → Type 0
  Begun old s =
      (s destination ≡ old)
      × (starts_with source (contents_of (s (partial_path destination))) ≡ true)

  pub Begun-describe :
      (s : Store)
      → is_resumable destination identity source s ≡ true
      → Begun (s destination) (describe destination identity s)
  unfolding starts_with
  Begun-describe s h = (
    ground (arith, paths_differ destination identity source),
    ground (
      arith,
      h,
      paths_differ destination identity source,
      text_eq_refl (partial_path destination),
    ),
  )

  pub converted_apart :
      (text_eq (partial_path destination) (converted_path destination) ≡ false)
      × (text_eq (meta_path destination) (converted_path destination) ≡ false)
      × (text_eq destination (converted_path destination) ≡ false)
  unfolding text_eq
  converted_apart = (
    text_eq-append destination (codes ".part") (codes ".tmp"),
    text_eq-append_twice destination (codes ".part") (codes ".meta") (codes ".tmp"),
    (text_eq-longer destination b'.' (codes "tmp")).1,
  )

  -- The partial file is the source.
  abbrev pub Whole : Option Text → Store → Type 0
  Whole old s = (s destination ≡ old) × (s (partial_path destination) ≡ some source)

  Whole-resumable :
      (old : Option Text) (s : Store)
      → Whole old s
      → is_resumable destination identity source s ≡ true
  Whole-resumable old s whole =
      ground (arith, ap (λ o. starts_with source (contents_of o)) whole.1, starts_with-same source)

  gone-resumable :
      (s : Store)
      → s (partial_path destination) ≡ none
      → is_resumable destination identity source s ≡ true
  unfolding starts_with
  gone-resumable s e = ground (arith, ap (λ o. starts_with source (contents_of o)) e)

  module _ (linesep remote requested : Text) (old : Option Text) where
    Safe-converted :
        (o : Option Text) (s : Store)
        → Whole old s
        → Safe old (elim o [
          | none ↦ unfit (set_file (converted_path destination) none s)
          | some t ↦ received ascii (replace_converted destination identity t s)
        ])
    Safe-converted none s whole =
        let after = set_file (converted_path destination) none s in
        (
          Whole-resumable old after
              (ground (arith, whole.0, converted_apart), ground (arith, whole.1, converted_apart)),
          ground (arith, whole.0, converted_apart),
        )
    Safe-converted (some t) s whole = (
      gone-resumable (replace_converted destination identity t s) (
          ground (
            arith,
            paths_differ destination identity source,
            text_eq_refl (partial_path destination),
          )),
      refl,
    )

    Safe-finish :
        (m : Mode) (s : Store) → Whole old s → Safe old (finish destination identity linesep m s)
    Safe-finish binary s whole = (
      gone-resumable (replace_whole destination identity s) (
          ground (
            arith,
            paths_differ destination identity source,
            text_eq_refl (partial_path destination),
          )),
      refl,
    )
    Safe-finish auto s whole = (
      gone-resumable (replace_whole destination identity s) (
          ground (
            arith,
            paths_differ destination identity source,
            text_eq_refl (partial_path destination),
          )),
      refl,
    )
    Safe-finish ascii s whole = Safe-converted _ s whole

    Safe-resolved :
        (r : Resolved) (s : Store)
        → Whole old s
        → Safe old
            (elim r [ value_error ↦ unfit s | mode m ↦ finish destination identity linesep m s ])
    Safe-resolved value_error s whole = (Whole-resumable old s whole, whole.0)
    Safe-resolved (mode m) s whole = Safe-finish m s whole

    Safe-convert :
        (s : Store)
        → Whole old s
        → Safe old (convert destination identity linesep remote requested s)
    Safe-convert s whole =
        Safe-resolved
          (resolve_transfer_mode remote requested
            (some (take sample_size (contents_of (s (partial_path destination))))))
          s whole

    pub Whole-uploaded :
        (hides : Bool) (s : Store)
        → Begun old s
        → Whole old (
            set_file
              (partial_path destination)
              (some (uploaded source hides none (contents_of (s (partial_path destination)))))
              s)
    Whole-uploaded hides s begun = (
      ground (arith, begun.0, paths_differ destination identity source),
      ground (
        arith,
        text_eq_refl (partial_path destination),
        uploaded-whole source (contents_of (s (partial_path destination))) hides begun.1,
      ),
    )

    -- What is left where a call raises, and what a call that returns leaves.
    abbrev Moved : Outcome → Type 0
    Moved (finished s) = Whole old s
    Moved (raised e s) = Begun old s

    Moved-move :
        (hides : Bool) (fault : Option (Fault × Option ℕ)) (s : Store)
        → Begun old s
        → Moved (move source hides fault (partial_path destination) s)
    unfolding move
    Moved-move hides none s begun = Whole-uploaded hides s begun
    Moved-move hides (some (e, none)) s begun = begun
    Moved-move hides (some (e, some n)) s begun = (
      ground (arith, begun.0, paths_differ destination identity source),
      ground (
        arith,
        text_eq_refl (partial_path destination),
        uploaded-prefix source (contents_of (s (partial_path destination))) hides n begun.1,
      ),
    )

    Moved-once_more :
        (o : Outcome) (again : Store → Outcome)
        → Moved o
        → ((s : Store) → Begun old s → Moved (again s))
        → Moved (once_more o again)
    Moved-once_more (finished s) again moved step = moved
    Moved-once_more (raised unsupported s) again moved step = moved
    Moved-once_more (raised not_found s) again moved step = moved
    Moved-once_more (raised mistyped s) again moved step = step s moved
    Moved-once_more (raised broken s) again moved step = moved

    Safe-conclude :
        (o : Outcome)
        → Moved o
        → Safe old (conclude destination identity linesep remote requested o)
    Safe-conclude (finished s) moved = Safe-convert s moved
    Safe-conclude (raised e s) begun = (ground (arith, begun.1), begun.0)

    pub Safe-part :
        (replies : Replies) (s : Store)
        → Begun old s
        → Safe old (download_part destination identity linesep remote requested source replies s)
    Safe-part replies s begun = Safe-conclude _ (
        Moved-once_more _ _ (Moved-move replies.hides_size replies.download_fault s begun)
          (Moved-move replies.hides_size_again replies.download_again_fault))
