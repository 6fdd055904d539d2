-- ===== src/Http/Mime.antt =====
-- mime_type of lib/src/ServerUtils.cpp.
pub mod Suffix
use Prim.Native.String.{String}
use geoff.Prelude.{ℕ, ◌+◌, ◌≡◌, ◌↔◌, Bool, true, ◌&&◌, [], map, none, some, leb, if◌then◌else◌}
use geoff.Http.Text.{Text, codes, rfind, substr}

abbrev pub to_lower : ℕ → ℕ
to_lower c = if leb b'A' c && leb c b'Z' then c + 32 else c

-- beast::iequals, with what Boost documents: it compares texts without regard to the case of ASCII.
pub record Iequals : Type 0 where
  pub iequals : Text → Text → Bool
  pub iequals_iff : (a b : Text) → (iequals a b ≡ true) ↔ (map to_lower a ≡ map to_lower b)

-- The lambda `ext`.
unfoldable pub ext : Text → Text
ext path = elim (rfind b'.' path) [ none ↦ [] | some pos ↦ substr pos path ]

module _ (beast : Iequals) where
  open beast use {iequals}

  -- The tests, in the order of the source.
  unfoldable pub mime_of : Text → String
  mime_of e =
      if iequals e (codes ".htm")
      then "text/html"
      else if iequals e (codes ".html")
      then "text/html"
      else if iequals e (codes ".php")
      then "text/html"
      else if iequals e (codes ".css")
      then "text/css"
      else if iequals e (codes ".txt")
      then "text/plain"
      else if iequals e (codes ".js")
      then "application/javascript"
      else if iequals e (codes ".json")
      then "application/json"
      else if iequals e (codes ".xml")
      then "application/xml"
      else if iequals e (codes ".swf")
      then "application/x-shockwave-flash"
      else if iequals e (codes ".flv")
      then "video/x-flv"
      else if iequals e (codes ".png")
      then "image/png"
      else if iequals e (codes ".jpe")
      then "image/jpeg"
      else if iequals e (codes ".jpeg")
      then "image/jpeg"
      else if iequals e (codes ".jpg")
      then "image/jpeg"
      else if iequals e (codes ".gif")
      then "image/gif"
      else if iequals e (codes ".bmp")
      then "image/bmp"
      else if iequals e (codes ".ico")
      then "image/vnd.microsoft.icon"
      else if iequals e (codes ".tiff")
      then "image/tiff"
      else if iequals e (codes ".tif")
      then "image/tiff"
      else if iequals e (codes ".svg")
      then "image/svg+xml"
      else if iequals e (codes ".svgz")
      then "image/svg+xml"
      else "application/text"

  unfoldable pub mime_type : Text → String
  mime_type path = mime_of (ext path)
