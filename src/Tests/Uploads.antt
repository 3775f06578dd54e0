-- ===== src/Tests/Uploads.antt =====
-- An upload of three bytes.
use prime_pizza_backend.Base.{◌≡◌, some, [], ◌∷◌, arith}
use prime_pizza_backend.Base.Exec.{ok}
use prime_pizza_backend.Uploads.{UploadFile, read_upload_limited}
use prime_pizza_backend.Uploads.Reading.{read_upload_limited_lem}

abbrev picture : UploadFile
picture = record { size = some 3; body = 7 ∷ 8 ∷ 9 ∷ [] }

read_upload_limited_example : read_upload_limited 4 picture 5 ≡ some (ok (7 ∷ 8 ∷ 9 ∷ []))
read_upload_limited_example = read_upload_limited_lem picture 5 4 (omega arith)
