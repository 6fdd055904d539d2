-- ===== src/Http/Failure.antt =====
-- fail of lib/src/ServerUtils.cpp, on the lines that the server has written to its log.
use geoff.Prelude.{◌+◌, ◌≡◌, Bool, false, List, [], ◌∷◌, ◌++◌, if◌then◌else◌, length, length-append}
use geoff.Http.Text.{Text, codes}

-- beast::error_code, where it is an error: whether it is ssl::error::stream_truncated, and its text.
pub record ErrorCode : Type 0 where
  pub stream_truncated : Bool
  pub message : Text

unfoldable pub fail : ErrorCode → Text → List Text → List Text
fail ec what log =
    if ec.stream_truncated
    then log
    else log ++ ((what ++ (codes ": " ++ (ec.message ++ codes "\n"))) ∷ [])

pub length-fail :
    (ec : ErrorCode) (what : Text) (log : List Text)
    → ec.stream_truncated ≡ false
    → length (fail ec what log) ≡ length log + 1
unfolding fail
length-fail ec what log h = rw h (length-append log _)
