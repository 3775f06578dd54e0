-- ===== src/Uploads.antt =====
-- `read_upload_limited` (app/utils/uploads.py).
pub mod Reading
use prime_pizza_backend.Base.{
  ℕ, zero, suc, ◌+◌, ◌*◌, Bool, true, false, Option, none, some, List, [], ◌∷◌, ◌++◌, ltb, ◌==◌,
  length, take, drop, concat, if◌then◌else◌,
}
use prime_pizza_backend.Base.Exec.{Result, ok, err}
use prime_pizza_backend.Errors.{AppException, validation_exception, text, with_number}

-- The web framework's `UploadFile`: the length that the client advertised, and the bytes still to be
-- read. `read(n)` gives the next `n` bytes, or what is left of them, and none at the end.
pub record UploadFile : Type 0 where
  pub size : Option ℕ
  pub body : List ℕ

abbrev too_large : {A : Type 0} → ℕ → Result AppException A
too_large max_bytes =
    err (validation_exception (with_number "Image exceeds maximum size of " max_bytes " bytes"))

-- What follows one `read`: `go` is the loop's next round.
unfoldable pub after_read :
    ℕ
    → ℕ
    → List (List ℕ)
    → List ℕ
    → (ℕ → List (List ℕ) → Option (Result AppException (ℕ × List (List ℕ))))
    → Option (Result AppException (ℕ × List (List ℕ)))
after_read max_bytes total chunks [] go = some (ok (total, chunks))
after_read max_bytes total chunks (b ∷ chunk) go =
    let total' = total + length (b ∷ chunk) in
    elim (ltb max_bytes total') [
      | true ↦ some (too_large max_bytes)
      | false ↦ go total' (chunks ++ (b ∷ chunk) ∷ [])
    ]

-- The `while True`; `none` means that the fuel ran out.
unfoldable pub read_chunks :
    ℕ → ℕ → ℕ → ℕ → List (List ℕ) → List ℕ → Option (Result AppException (ℕ × List (List ℕ)))
unfolding after_read
read_chunks zero chunk_size max_bytes total chunks rest = none
read_chunks (suc fuel) chunk_size max_bytes total chunks rest =
    after_read max_bytes total chunks (take chunk_size rest) (λ total' chunks'.
      read_chunks fuel chunk_size max_bytes total' chunks' (drop chunk_size rest))

abbrev joined : Result AppException (ℕ × List (List ℕ)) → Result AppException (List ℕ)
joined (err e) = err e
joined (ok (total, chunks)) =
    if total == 0
    then err (validation_exception (text "Empty image upload is not allowed"))
    else ok (concat chunks)

abbrev advertised : Option ℕ → ℕ → Bool
advertised none max_bytes = false
advertised (some content_length) max_bytes = ltb max_bytes content_length

abbrev finished :
    Option (Result AppException (ℕ × List (List ℕ))) → Option (Result AppException (List ℕ))
finished none = none
finished (some r) = some (joined r)

unfoldable pub read_upload_limited : ℕ → UploadFile → ℕ → Option (Result AppException (List ℕ))
unfolding read_chunks
read_upload_limited fuel file max_bytes =
    if max_bytes == 0
    then some (err (validation_exception (text "Invalid upload size limit")))
    else if advertised file.size max_bytes
    then some (too_large max_bytes)
    else finished (read_chunks fuel (64 * 1024) max_bytes 0 [] file.body)
