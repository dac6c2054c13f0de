-- ===== src/Transfer/Lines/Whole.antt =====
-- The line normaliser against the whole-file conversion by `str.replace`.
use hpc_client_gui.Base.{
  ◌≡◌, refl, false, sym, ◌∙◌, [], ◌∷◌, ◌++◌, ◌||◌, ◌==◌, if◌then◌else◌, arith, append_assoc,
  append-nil,
}
use hpc_client_gui.Base.Text.{Text, starts_with, replace_from, replace}
use hpc_client_gui.Transfer.Lines.{cr, lf, flush_loop, to_unix, to_local}
use hpc_client_gui.Transfer.Lines.Machine.{finish, output-flush_loop, held-flush_loop}

-- Each carriage return and each line feed written as `newline`.
expand : Text → Text → Text
expand newline [] = []
expand newline (c ∷ s) = (if c == cr || c == lf then newline else c ∷ []) ++ expand newline s

replace-expand :
    (newline s : Text)
    → replace (replace s (cr ∷ []) (lf ∷ [])) (lf ∷ []) newline ≡ expand newline s
unfolding replace replace_from starts_with expand
replace-expand newline [] = refl
replace-expand newline (c ∷ s) = ground (arith, replace-expand newline s)

replace-lf_self : (s : Text) → replace s (lf ∷ []) (lf ∷ []) ≡ s
unfolding replace replace_from starts_with
replace-lf_self [] = refl
replace-lf_self (c ∷ s) = ground (arith, replace-lf_self s)

-- The text and what is written for a carriage return at its end.
flush_all : Text → Text → Text
flush_all newline s =
    let (out, pending) = flush_loop newline s in out ++ (if pending then newline else [])

flush_all-expand :
    (newline s : Text) → flush_all newline s ≡ expand newline (replace s (cr ∷ lf ∷ []) (lf ∷ []))
unfolding flush_all flush_loop expand replace replace_from starts_with
flush_all-expand newline [] = refl
flush_all-expand newline (c ∷ []) = ground (arith, append-nil newline)
flush_all-expand newline (c ∷ d ∷ s) = ground (
  arith,
  append_assoc newline (flush_loop newline s).0 (if (flush_loop newline s).1 then newline else []),
  append_assoc newline (flush_loop newline (d ∷ s)).0
      (if (flush_loop newline (d ∷ s)).1 then newline else []),
  flush_all-expand newline s,
  flush_all-expand newline (d ∷ s),
)

-- The machine, run over a whole text, is the conversion for a local file.
pub finish-to_local : (newline s : Text) → finish newline false s ≡ to_local newline s
unfolding finish to_local to_unix flush_all
finish-to_local newline s =
    rw (← output-flush_loop newline s, ← held-flush_loop newline s)
      (flush_all-expand newline s ∙ sym (replace-expand newline _))

pub to_local-lf : (s : Text) → to_local (lf ∷ []) s ≡ to_unix s
unfolding to_local
to_local-lf s = replace-lf_self (to_unix s)
