-- ===== src/Http/Samples.antt =====
-- A library as Boost documents it, files and requests, on which the theorems are applied.
use geoff.Prelude.{
  ◌≡◌, refl, ◌↔◌, Bool, true, false, ◌&&◌, [], ◌∷◌, map, some, arith, ◌==◌, if◌then◌else◌, length,
}
use geoff.Http.Text.{Text, codes}
use geoff.Http.Mime.{Iequals, to_lower}
use geoff.Http.Handle.{Request, get, Opened, opened, no_such_file, Beast}
use geoff.Http.Handle.Answers.{body_bytes}
use geoff.Http.Connection.{Protocol}

unfoldable pub eq_text : Text → Text → Bool
eq_text [] [] = true
eq_text (x ∷ s) (y ∷ t) = (x == y) && eq_text s t
eq_text _ _ = false

pub eq_text_iff : (s t : Text) → (eq_text s t ≡ true) ↔ (s ≡ t)
unfolding eq_text
eq_text_iff [] [] = (λ e. refl, λ e. refl)
eq_text_iff [] (y ∷ t) = (λ e. cc, λ e. cc)
eq_text_iff (x ∷ s) [] = (λ e. cc, λ e. cc)
eq_text_iff (x ∷ s) (y ∷ t) = ground (arith, eq_text_iff s t)

-- A library that does what Boost documents.
abbrev pub strings : Iequals
strings = record {
  iequals = λ a b. eq_text (map to_lower a) (map to_lower b);
  iequals_iff = λ a b. eq_text_iff (map to_lower a) (map to_lower b);
}

abbrev pub beast : Beast
beast = record {
  strings = strings;
  version_string = "Boost.Beast/300";
  prepare_payload = λ res. record res { content_length = some (length (body_bytes res.body)) };
  prepare_payload_text = λ res c s e. rw e refl;
}

-- Two disks with the same files below "www" and with others elsewhere.
abbrev pub disk : Text → Opened
disk [] = no_such_file
disk (c ∷ path) = if c == b'w' then opened (1 ∷ 2 ∷ 3 ∷ []) else no_such_file

abbrev pub other_disk : Text → Opened
other_disk [] = no_such_file
other_disk (c ∷ path) = if c == b'w' then opened (1 ∷ 2 ∷ 3 ∷ []) else opened (9 ∷ [])

abbrev pub front_page : Request
front_page = record { method = get; version = 11; target = codes "/"; keep_alive = true }

abbrev pub escape : Request
escape = record { method = get; version = 11; target = codes "/../etc/passwd"; keep_alive = true }

abbrev pub missing : Text → Opened
missing path = no_such_file

-- Requests for "/ws" are upgrades, and a response without keep-alive closes the connection.
abbrev pub protocol : Protocol
protocol = record {
  is_upgrade = λ req. eq_text req.target (codes "/ws");
  need_eof = λ res. elim res.keep_alive [ true ↦ false | false ↦ true ];
}

abbrev pub upgrade : Request
upgrade = record { method = get; version = 11; target = codes "/ws"; keep_alive = true }
