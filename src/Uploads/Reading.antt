-- ===== src/Uploads/Reading.antt =====
-- How the reading of an upload ends.
use prime_pizza_backend.Base.{
  ℕ, zero, suc, ◌+◌, ◌<◌, ◌≡◌, ap, ◌∙◌, inl, inr, false, some, List, [], ◌∷◌, ◌++◌, arith, ltb,
  ◌==◌, length, take, drop, concat, concat-append, take-append-drop, length-take-drop, Bool-cases,
  if◌then◌else◌, append_assoc, append-nil,
}
use prime_pizza_backend.Base.Exec.{Result, ok, err}
use prime_pizza_backend.Errors.{AppException, validation_exception, text}
use prime_pizza_backend.Uploads.{
  UploadFile, too_large, read_chunks, advertised, finished, read_upload_limited,
}

-- What the loop leads to, in one look at the bytes.
abbrev outcome : ℕ → ℕ → List (List ℕ) → List ℕ → Result AppException (List ℕ)
outcome max_bytes total chunks rest =
    if ltb max_bytes (total + length rest)
    then too_large max_bytes
    else if total + length rest == 0
    then err (validation_exception (text "Empty image upload is not allowed"))
    else ok (concat chunks ++ rest)

outcome_step :
    (max_bytes total k : ℕ) (chunks : List (List ℕ)) (b : ℕ) (rest : List ℕ)
    → outcome max_bytes
        (total + suc (length (take k rest)))
        (chunks ++ (b ∷ take k rest) ∷ [])
        (drop k rest)
      ≡ outcome max_bytes total chunks (b ∷ rest)
outcome_step max_bytes total k chunks b rest =
    let count : total + suc (length (take k rest)) + length (drop k rest)
        ≡ total + length (b ∷ rest) =
      omega (arith, length-take-drop k rest) in
    let bytes : concat (chunks ++ (b ∷ take k rest) ∷ []) ++ drop k rest
        ≡ concat chunks ++ b ∷ rest =
      rw (
        concat-append chunks (b ∷ take k rest),
        append_assoc (concat chunks) (b ∷ take k rest) (drop k rest),
        take-append-drop k rest,
      ) in
    rw (count, bytes)

read_chunks_lem :
    (fuel k max_bytes total : ℕ) (chunks : List (List ℕ)) (rest : List ℕ)
    → length rest < fuel
    → ltb max_bytes total ≡ false
    → finished (read_chunks fuel (suc k) max_bytes total chunks rest)
      ≡ some (outcome max_bytes total chunks rest)
unfolding read_chunks
read_chunks_lem zero k max_bytes total chunks rest h fits = absurd (omega arith)
read_chunks_lem (suc fuel) k max_bytes total chunks [] h fits =
    ground (arith, append-nil (concat chunks))
read_chunks_lem (suc fuel) k max_bytes total chunks (b ∷ rest) h fits =
    elim (Bool-cases (ltb max_bytes (total + suc (length (take k rest))))) [
      | inl over ↦ ground (arith, length-take-drop k rest)
      | inr more ↦
          let step =
            read_chunks_lem fuel k max_bytes (total + suc (length (take k rest)))
              (chunks ++ (b ∷ take k rest) ∷ []) (drop k rest)
              (omega (arith, length-take-drop k rest)) more
            ∙ ap some (outcome_step max_bytes total k chunks b rest) in
          rw (more, finished) step
    ]

-- The whole behaviour, which is that of the fuel's being one more than the bytes: without a limit,
-- with more bytes advertised or sent than it, or with none sent, the upload is refused, and in every
-- other case the answer is the bytes that were sent. In particular the loop ends.
pub read_upload_limited_lem :
    (file : UploadFile) (max_bytes fuel : ℕ)
    → length file.body < fuel
    → read_upload_limited fuel file max_bytes
      ≡ some (
          if max_bytes == 0
          then err (validation_exception (text "Invalid upload size limit"))
          else if advertised file.size max_bytes
          then too_large max_bytes
          else outcome max_bytes 0 [] file.body)
unfolding read_upload_limited
read_upload_limited_lem file max_bytes fuel h =
    ground (arith, read_chunks_lem fuel 65535 max_bytes 0 [] file.body)
