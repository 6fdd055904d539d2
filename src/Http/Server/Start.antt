-- ===== src/Http/Server/Start.antt =====
-- How the server starts (Geoff in lib/src/geoff.cpp, main in apps/asteroids/src/Main.cpp).
use geoff.Prelude.{
  ℕ, ◌≤◌, ◌≡◌, refl, ◌⊎◌, inl, inr, Bool, true, false, List, [], Option, none, some, arith, sym,
  ◌∙◌, Bool-cases,
}
use geoff.Prelude.Int.{ℤ, pos, negsuc}
use mathlib.Core.Option.{some-ne-none}
use geoff.Http.Text.{Text, codes}
use geoff.Http.Failure.{ErrorCode, fail}
use geoff.Http.Server.{
  Certificates, Acceptor, Started, threw, gave_up, running, ssl_context, threads_of, with_context,
  geoff_main, exit_code, main, listen_on,
}

-- The three calls succeed.
abbrev pub AllLoaded : Certificates → Type 0
AllLoaded c =
    (c.use_certificate_chain_file ≡ none)
    × (c.use_private_key_file ≡ none)
    × (c.use_tmp_dh_file ≡ none)

ssl_context_cases :
    (c : Certificates)
    → (AllLoaded c × (ssl_context c [] ≡ (none, [])))
      ⊎ ((AllLoaded c → ⊥)
          × ((ec : ErrorCode) × (log : List Text) × (ssl_context c [] ≡ (some ec, log))))
unfolding ssl_context
ssl_context_cases c =
    go c.use_certificate_chain_file c.use_private_key_file c.use_tmp_dh_file refl refl refl
  where
    go :
        (x y z : Option ErrorCode)
        → c.use_certificate_chain_file ≡ x
        → c.use_private_key_file ≡ y
        → c.use_tmp_dh_file ≡ z
        → (AllLoaded c × (ssl_context c [] ≡ (none, [])))
          ⊎ ((AllLoaded c → ⊥)
              × ((ec : ErrorCode) × (log : List Text) × (ssl_context c [] ≡ (some ec, log))))
    go (some ec) y z ex ey ez = inr (
      λ h. absurd (some-ne-none ec (sym ex ∙ h.0)),
      (ec, fail ec (codes "use_certificate_chain_file") [], rw (ssl_context, ex) refl),
    )
    go none (some ec) z ex ey ez = inr (
      λ h. absurd (some-ne-none ec (sym ey ∙ h.1)),
      (ec, fail ec (codes "use_private_key_file") [], rw (ssl_context, ex, ey) refl),
    )
    go none none (some ec) ex ey ez = inr (
      λ h. absurd (some-ne-none ec (sym ez ∙ h.2)),
      (ec, fail ec (codes "use_tmp_dh_file") [], rw (ssl_context, ex, ey, ez) refl),
    )
    go none none none ex ey ez = inl ((ex, ey, ez), rw (ssl_context, ex, ey, ez) refl)

-- The number of threads is what was asked for, if that is at least one, or else it is one.
abbrev pub Threads : ℤ → ℕ → Type 0
Threads (pos asked) n = ((1 ≤ asked) × (n ≡ asked)) ⊎ ((asked ≡ 0) × (n ≡ 1))
Threads (negsuc asked) n = n ≡ 1

threads_of-Threads : (thrds : ℤ) → Threads thrds (threads_of thrds)
unfolding threads_of
threads_of-Threads (pos asked) = ground arith
threads_of-Threads (negsuc asked) = refl

-- What Geoff comes to, and when.
pub data Outcome (address : Bool) (c : Certificates) (a : Acceptor) (thrds : ℤ)
    : Started → Type 0 where
  no_address : address ≡ false → Outcome address c a thrds threw
  not_loaded :
      (log : List Text)
      → address ≡ true
      → (AllLoaded c → ⊥)
      → Outcome address c a thrds (gave_up log)
  runs :
      (n : ℕ)
      → address ≡ true
      → AllLoaded c
      → Threads thrds n
      → Outcome address c a thrds (running n (listen_on a []))

-- Geoff throws an exception exactly when the address cannot be read; otherwise it runs the server exactly
-- when the certificate, the key and the parameters could be loaded, on as many threads as were asked
-- for but at least one, and returns -1 when they could not.
pub geoff_main-Outcome :
    (make_address : Text → Bool) (addr : Text) (c : Certificates) (a : Acceptor) (thrds : ℤ)
    → Outcome (make_address addr) c a thrds (geoff_main make_address addr c a thrds)
unfolding geoff_main with_context
geoff_main-Outcome make_address addr c a thrds = elim (Bool-cases (make_address addr)) [
  | inr e ↦ rw e (no_address refl)
  | inl e ↦ elim (ssl_context_cases c) [
    | inl (h, e') ↦ rw (e, e') (runs (threads_of thrds) refl h (threads_of-Threads thrds))
    | inr (h, (ec, log, e')) ↦ rw (e, e') (not_loaded (fail ec (codes "SSLContext") log) refl h)
  ]
]

-- The exit status of the program does not say that the server could not start: it is 0 also when
-- Geoff has thrown an exception or returned -1.
pub main-gave_up :
    (make_address : Text → Bool) (addr : Text) (c : Certificates) (a : Acceptor) (thrds : ℤ)
    → (AllLoaded c → ⊥)
    → (s : Started) × (main make_address 5 addr c a thrds ≡ (0, some s))
      × ((exit_code s ≡ some (negsuc 0)) ⊎ (exit_code s ≡ none))
unfolding main
main-gave_up make_address addr c a thrds h =
    let s = geoff_main make_address addr c a thrds in
    (s, refl, status s (geoff_main-Outcome make_address addr c a thrds))
  where
    status :
        (s : Started)
        → Outcome (make_address addr) c a thrds s
        → (exit_code s ≡ some (negsuc 0)) ⊎ (exit_code s ≡ none)
    status s (no_address e) = inr refl
    status s (not_loaded log e h') = inl refl
    status s (runs n e loaded threads) = absurd (h loaded)
