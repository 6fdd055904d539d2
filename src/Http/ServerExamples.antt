-- ===== src/Http/ServerExamples.antt =====
-- A server whose port is taken, and one without a certificate, on which the theorems about its runs
-- and its start are applied.
use geoff.Prelude.{◌≡◌, refl, true, false, [], none, some, All}
use geoff.Prelude.Int.{pos}
use geoff.Http.Text.{codes}
use geoff.Http.Samples.{beast, protocol}
use geoff.Http.Failure.{ErrorCode}
use geoff.Http.Server.{
  Acceptor, Certificates, accepted, detected, listen_on, do_accept, on_accept, on_detect,
  geoff_main,
}
use geoff.Http.Server.Runs.{Reach, IsRun, Reach-IsRun, Reach-accepting}
use geoff.Http.Server.Start.{Outcome, geoff_main-Outcome}

abbrev in_use : ErrorCode
in_use = record { stream_truncated = false; message = codes "Address already in use" }

abbrev free_port : Acceptor
free_port = record { open_acceptor = none; set_option = none; bind = none; listen = none }

abbrev taken_port : Acceptor
taken_port = record free_port { bind = some in_use }

abbrev no_key : Certificates
no_key = record {
  use_certificate_chain_file = none;
  use_private_key_file = some in_use;
  use_tmp_dh_file = none;
}

-- One failed accept, and then one connection that turns out to be a plain one.
sample-Reach : Reach beast protocol (codes "www") taken_port [] (
    on_detect none false
      (record (on_accept none
        (record (on_accept (some in_use) (record (listen_on taken_port []) { accepting = 0 })) {
          accepting = 0;
        })) { detecting = 0 }))
unfolding listen_on do_accept on_accept
sample-Reach =
    Reach.later
      (Reach.later (Reach.later Reach.start (accepted 0 (some in_use) refl)) (accepted 0 none refl))
      (detected 0 none false refl)

Reach-IsRun_example :
    All
      (IsRun beast protocol (codes "www"))
      (on_detect none false
        (record (on_accept none
          (record (on_accept (some in_use) (record (listen_on taken_port []) { accepting = 0 })) {
            accepting = 0;
          })) { detecting = 0 })).connections
Reach-IsRun_example = Reach-IsRun beast protocol (codes "www") sample-Reach

Reach-accepting_example :
    (on_detect none false
      (record (on_accept none
        (record (on_accept (some in_use) (record (listen_on taken_port []) { accepting = 0 })) {
          accepting = 0;
        })) { detecting = 0 })).accepting
    ≡ 1
Reach-accepting_example = Reach-accepting beast protocol (codes "www") sample-Reach

geoff_main-Outcome_example :
    Outcome true no_key free_port
      (pos 4)
      (geoff_main (λ addr. true) (codes "0.0.0.0") no_key free_port (pos 4))
geoff_main-Outcome_example =
    geoff_main-Outcome (λ addr. true) (codes "0.0.0.0") no_key free_port (pos 4)
