-- ===== src/Transfer/Download/Arrival.antt =====
-- What arrives of a file that is downloaded in a mode.
use hpc_client_gui.Base.{
  ◌≡◌, refl, ap, sym, subst, ◌∙◌, Bool, true, not, if◌then◌else◌, length, take, Option, none, some,
  arith,
}
use hpc_client_gui.Base.Text.{Text, text_eq_refl}
use hpc_client_gui.Transfer.Stream.{stream_lines, ascii_for_local}
use hpc_client_gui.Transfer.Stream.Laws.{stream_lines-ascii_for_local}
use hpc_client_gui.Transfer.Mode.{
  Mode, auto, binary, ascii, mode, value_error, sample_size, resolve_transfer_mode,
}
use hpc_client_gui.Transfer.Partial.{
  Store, set_file, Fault, move, contents_of, uploaded, partial_path, meta_path,
}
use hpc_client_gui.Transfer.Partial.Prepare.{is_resumable, paths_differ}
use hpc_client_gui.Transfer.Upload.{encode, chunks_of}
use hpc_client_gui.Transfer.Upload.Laws.{flatten-chunks_of, chunks_of-All}
use hpc_client_gui.Transfer.Download.{
  Replies, Downloaded, received, interrupted, unfit, files_of, is_received, converted_path,
  describe, replace_whole, replace_converted, finish, download_part, download_with_mode,
}
use hpc_client_gui.Transfer.Download.Laws.{
  Safe, Begun-describe, Whole-uploaded, Safe-part, converted_apart,
}

-- The bytes to arrive: the file as it is, or its text with the line ends of the platform.
abbrev pub encoded : Option Text → Option Text
encoded none = none
encoded (some t) = some (encode t)

abbrev pub expected : Text → Mode → Text → Option Text
expected linesep binary bytes = some bytes
expected linesep auto bytes = some bytes
expected linesep ascii bytes = encoded (ascii_for_local linesep bytes)

module _ (destination identity source linesep remote requested : Text) where
  answered :
      (replies : Replies) (fault : Option Fault) (s : Store)
      → is_resumable destination identity source s ≡ true
      → Safe destination identity source (s destination) (elim fault [
        | some e ↦ interrupted e s
        | none ↦
            download_part destination identity linesep remote requested source replies
              (describe destination identity s)
      ])
  answered replies (some e) s h = (h, refl)
  answered replies none s h =
      Safe-part destination identity source linesep remote requested (s destination) replies
        (describe destination identity s) (Begun-describe destination identity source s h)

  -- Wherever a download is cut off or refused, the destination has the bytes it had, and what is
  -- left of a partial file with this description is a prefix of the remote file, if it was one
  -- before. The backend has `stat`, from which the description is made.
  pub download_with_mode_safe :
      (replies : Replies) (s : Store)
      → replies.has_stat ≡ true
      → is_resumable destination identity source s ≡ true
      → let o = download_with_mode destination identity linesep remote requested source replies s in
        (is_resumable destination identity source (files_of o) ≡ true)
        × ((if is_received o then s destination else files_of o destination) ≡ s destination)
  unfolding download_with_mode
  download_with_mode_safe replies s stat h =
      subst
        (λ b. Safe destination identity source (s destination) (
          if not b
          then download_part destination identity linesep remote requested source replies s
          else (elim replies.stat_fault [
            | some e ↦ interrupted e s
            | none ↦
                download_part destination identity linesep remote requested source replies
                  (describe destination identity s)
          ])))
        (sym stat) (answered replies replies.stat_fault s h)

  stream_lines-file :
      (bytes : Text)
      → stream_lines linesep (chunks_of (length bytes) bytes) ≡ ascii_for_local linesep bytes
  stream_lines-file bytes =
      stream_lines-ascii_for_local linesep (chunks_of (length bytes) bytes)
        (chunks_of-All (length bytes) bytes)
      ∙ ap (ascii_for_local linesep) (flatten-chunks_of (length bytes) bytes (omega arith))

  -- The file has arrived and nothing is left of the attempt.
  abbrev pub Arrives : Mode → Text → Downloaded → Type 0
  Arrives m sent o =
      (after : Store) × (o ≡ received m after)
      × (after destination ≡ some sent)
      × (after (partial_path destination) ≡ none)
      × (after (meta_path destination) ≡ none)

  arrives_whole :
      (s : Store)
      → s (partial_path destination) ≡ some source
      → (replace_whole destination identity s destination ≡ some source)
        × (replace_whole destination identity s (partial_path destination) ≡ none)
        × (replace_whole destination identity s (meta_path destination) ≡ none)
  arrives_whole s whole = (
    ground (arith, whole, paths_differ destination identity source, text_eq_refl destination),
    ground
        (arith, paths_differ destination identity source, text_eq_refl (partial_path destination)),
    ground (arith, text_eq_refl (meta_path destination)),
  )

  arrives_converted :
      (t : Text) (s : Store)
      → (replace_converted destination identity t s destination ≡ some (encode t))
        × (replace_converted destination identity t s (partial_path destination) ≡ none)
        × (replace_converted destination identity t s (meta_path destination) ≡ none)
  arrives_converted t s = (
    ground (
      arith,
      paths_differ destination identity source,
      converted_apart destination identity source,
      text_eq_refl destination,
    ),
    ground
        (arith, paths_differ destination identity source, text_eq_refl (partial_path destination)),
    ground (arith, text_eq_refl (meta_path destination)),
  )

  Arrives-lines :
      (o : Option Text) (sent : Text) (s : Store)
      → encoded o ≡ some sent
      → Arrives ascii sent (elim o [
        | none ↦ unfit (set_file (converted_path destination) none s)
        | some t ↦ received ascii (replace_converted destination identity t s)
      ])
  Arrives-lines none sent s e = ground (arith, e)
  Arrives-lines (some t) sent s e =
      let there = arrives_converted t s in
      (replace_converted destination identity t s, refl, there.0 ∙ e, there.1, there.2)

  Arrives-finish :
      (m : Mode) (sent : Text) (s : Store)
      → s (partial_path destination) ≡ some source
      → expected linesep m source ≡ some sent
      → Arrives m sent (finish destination identity linesep m s)
  Arrives-finish binary sent s whole fit =
      let there = arrives_whole s whole in
      (replace_whole destination identity s, refl, there.0 ∙ fit, there.1, there.2)
  Arrives-finish auto sent s whole fit =
      let there = arrives_whole s whole in
      (replace_whole destination identity s, refl, there.0 ∙ fit, there.1, there.2)
  Arrives-finish ascii sent s whole fit =
      Arrives-lines
        (stream_lines linesep (
          chunks_of (length (contents_of (s (partial_path destination))))
            (contents_of (s (partial_path destination)))))
        sent s
        (ap
            (λ o.
              encoded (stream_lines linesep (chunks_of (length (contents_of o)) (contents_of o))))
            whole
          ∙ ap encoded (stream_lines-file source)
          ∙ fit)

  -- Once no call raises, a file that is fit for its mode arrives, whatever earlier downloads have
  -- left: in binary as it is, in ASCII mode as the UTF-8 of its whole text with the line ends of
  -- the platform, wherever the chunks that are read end; and neither the partial file nor its
  -- description is left. A partial file of this description was a prefix of the remote file.
  pub download_with_mode-expected :
      (m : Mode) (sent : Text) (hides : Bool) (s : Store)
      → resolve_transfer_mode remote requested (some (take sample_size source)) ≡ mode m
      → expected linesep m source ≡ some sent
      → is_resumable destination identity source s ≡ true
      → Arrives m sent (
          download_with_mode destination identity linesep remote requested source
            (record {
              has_stat = true;
              stat_fault = none;
              hides_size = hides;
              download_fault = none;
              hides_size_again = hides;
              download_again_fault = none;
            })
            s)
  unfolding download_with_mode move
  download_with_mode-expected m sent hides s resolved fit h =
      let described = describe destination identity s in
      let part =
        set_file (partial_path destination)
          (some (uploaded source hides none (contents_of (described (partial_path destination)))))
          described in
      let whole =
        (Whole-uploaded destination identity source linesep remote requested (s destination) hides
          described (Begun-describe destination identity source s h)).1 in
      subst (Arrives m sent)
        (sym (
          ap
            (λ o.
              elim (resolve_transfer_mode remote requested
                (some (take sample_size (contents_of o)))) [
                  | value_error ↦ unfit part
                  | mode n ↦ finish destination identity linesep n part
                ])
            whole
          ∙ ap
              (λ r. elim r [
                | value_error ↦ unfit part
                | mode n ↦ finish destination identity linesep n part
              ])
              resolved))
        (Arrives-finish m sent part whole fit)

  -- Wherever a download is cut off or refused, the destination has the bytes it had. The next
  -- one in which no call raises brings the file, if it is fit for its mode, whatever the one
  -- before has left: in binary as it is, in ASCII mode as the UTF-8 of its whole text with the
  -- line ends of the platform, wherever the chunks that are read end; and neither the partial
  -- file nor its description is left. The backend has `stat`, and a partial file of this
  -- description was a prefix of the remote file at first.
  pub download_with_mode_again :
      (m : Mode) (sent : Text) (replies : Replies) (hides : Bool) (s : Store)
      → replies.has_stat ≡ true
      → resolve_transfer_mode remote requested (some (take sample_size source)) ≡ mode m
      → expected linesep m source ≡ some sent
      → is_resumable destination identity source s ≡ true
      → let o = download_with_mode destination identity linesep remote requested source replies s in
        ((if is_received o then s destination else files_of o destination) ≡ s destination)
        × Arrives m sent (
            download_with_mode destination identity linesep remote requested source
              (record {
                has_stat = true;
                stat_fault = none;
                hides_size = hides;
                download_fault = none;
                hides_size_again = hides;
                download_again_fault = none;
              })
              (files_of o))
  download_with_mode_again m sent replies hides s stat resolved fit h =
      let safe = download_with_mode_safe replies s stat h in
      (
        safe.1,
        download_with_mode-expected m sent hides
            (files_of
              (download_with_mode destination identity linesep remote requested source replies s))
            resolved fit safe.0,
      )
