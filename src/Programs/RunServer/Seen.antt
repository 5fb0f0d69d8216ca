-- ===== src/Programs/RunServer/Seen.antt =====
-- When the server's program does end: at the first read of the flag that sees that the protocol has
-- finished.
use Prim.Native.String.{◌++◌ as append}
use private_join_and_compute.Prelude.{
  ℕ, true, false, List, [], ◌∷◌, ◌++◌, ◌≡◌, refl, sym, ap, ◌∙◌, some, Bool-cases, inl, inr,
}
use private_join_and_compute.Prelude.Bytes.{Bytes}
use private_join_and_compute.Util.Result.{ok}
use private_join_and_compute.Util.Exec.{continue-ok}
use private_join_and_compute.Crypto.OpenSsl.{OpenSsl}
use private_join_and_compute.Crypto.Flags.{Flags}
use private_join_and_compute.Crypto.CommutativeCipher.{CommutativeCipher}
use private_join_and_compute.Match.{ClientRoundOne, ServerRoundTwo}
use private_join_and_compute.Server.{Server, compute_intersection, make_server}
use private_join_and_compute.Rpc.{
  Service, Request, starting, second_round, make_service, start_protocol, answer_request,
  execute_server_round_two,
}
use private_join_and_compute.Rpc.Session.{
  State, answer_all, closed, compute_intersection_ok, answer_request-finished,
  answer_request-second_round,
}
use private_join_and_compute.Data.Absl.{Absl}
use private_join_and_compute.Data.Files.{Files, read_server_dataset_from_file}
use private_join_and_compute.Programs.{Line, out, or_complain}
use private_join_and_compute.Programs.RunServer.{
  Event, answer, poll, ServerFlags, serve, serve_inputs, run_server,
}
use private_join_and_compute.Programs.RunServer.Requests.{requests_of, continue_state}

module _ ⦃lib : OpenSsl⦄ (fuel : ℕ) (flags : Flags) where
  -- No request takes the flag back.
  stays_finished :
      (request : Request) (s : State fuel flags)
      → s.0.protocol_finished ≡ true
      → (answer_request fuel flags request s).1.0.protocol_finished ≡ true
  unfolding answer_request start_protocol execute_server_round_two
  stays_finished starting (service, g) h =
      ap (λ s. s.0.protocol_finished)
        (continue_state (start_protocol fuel (service, g)).0 (start_protocol fuel (service, g)).1)
      ∙ h
  stays_finished (second_round request) (service, g) h = rw h refl

  all_finished :
      (requests : List Request) (s s' : State fuel flags)
      → s.0.protocol_finished ≡ true
      → answer_all fuel flags requests s ≡ (ok tt, s')
      → s'.0.protocol_finished ≡ true
  unfolding answer_all
  all_finished [] s s' h e = ap (λ r. r.1.0.protocol_finished) (sym e) ∙ h
  all_finished (request ∷ requests) s s' h e =
      let (_, _, rest) = continue-ok (answer_request fuel flags request s).0 _ _ s' e in
      all_finished requests _ s' (stays_finished request s h) rest

  -- Requests that leave the service unfinished leave the main thread in its loop.
  serve_before :
      (before rest : List Event) (s s' : State fuel flags)
      → answer_all fuel flags (requests_of before) s ≡ (ok tt, s')
      → s'.0.protocol_finished ≡ false
      → serve fuel flags (before ++ rest) s ≡ serve fuel flags rest s'
  unfolding serve requests_of answer_all
  serve_before [] rest s s' e h = ap (λ r. serve fuel flags rest r.1) e
  serve_before (answer request ∷ before) rest s s' e h =
      let s₁ = (answer_request fuel flags request s).1 in
      let (_, done, later) = continue-ok (answer_request fuel flags request s).0 _ s₁ s' e in
      let answered : answer_request fuel flags request s ≡ (ok tt, s₁) = ap (λ r. (r, s₁)) done in
      rw answered (serve_before before rest s₁ s' later h)
  serve_before (poll sees ∷ before) rest s s' e h = elim (Bool-cases (s.0.protocol_finished)) [
    | inl done ↦ let no = all_finished (requests_of before) s s' done e in absurd (cc (no, h))
    | inr open_yet ↦ rw (open_yet, serve) (serve_before before rest s s' e h)
  ]

  serve_answered :
      (request : ClientRoundOne) (events : List Event) (s s₁ : State fuel flags)
      → answer_request fuel flags (second_round request) s ≡ (ok tt, s₁)
      → serve fuel flags (answer (second_round request) ∷ events) s ≡ serve fuel flags events s₁
  unfolding serve
  serve_answered request events s s₁ e = rw e refl

  -- Nothing changes until the read that sees the flag.
  serve_seen :
      (between after : List Event) (cipher : CommutativeCipher lib) (server : Server lib)
      (g : lib.Rng)
      → server.ec_cipher ≡ some cipher
      → serve fuel flags (between ++ (poll true ∷ after)) (closed fuel flags server, g)
        ≡ (ok tt, (closed fuel flags server, g))
  unfolding serve
  serve_seen [] after cipher server g h = refl
  serve_seen (answer request ∷ between) after cipher server g h =
      rw (answer_request-finished fuel flags request cipher server g h)
        (serve_seen between after cipher server g h)
  serve_seen (poll true ∷ between) after cipher server g h = refl
  serve_seen (poll false ∷ between) after cipher server g h =
      serve_seen between after cipher server g h

  module _ ⦃absl : Absl⦄ ⦃files : Files⦄ where
    -- Where the server's file was read, the requests before a second round leave the service unfinished
    -- and the process alive, the intersection is computed for that round, and some later read of the flag
    -- sees the change: the program ends with 0, whatever requests come between and after and however
    -- many reads miss the change, prints that it loaded its data, listened and completed the protocol, and
    -- leaves the generator as the computation left it.
    pub run_server-seen :
        (options : ServerFlags) (disk : files.Disk) (inputs : List Bytes)
        (before between after : List Event) (request : ClientRoundOne) (console : List Line)
        (service : Service lib) (server : Server lib) (g₀ g g' : lib.Rng)
        (response : ServerRoundTwo)
        → read_server_dataset_from_file options.server_data_file disk ≡ ok inputs
        → answer_all fuel flags (requests_of before) (make_service (make_server inputs), g₀)
          ≡ (ok tt, (service, g))
        → service.protocol_finished ≡ false
        → compute_intersection fuel flags request (service.server, g) ≡ (ok response, (server, g'))
        → run_server fuel flags options disk
            (before ++ (answer (second_round request) ∷ (between ++ (poll true ∷ after))))
            (console, g₀)
          ≡ (
            ok 0,
            (
              console
                  ++ (out "Server: loading data... " ∷ [])
                  ++ (out (append "Server: listening on " options.port) ∷ [])
                  ++ (out "Server completed protocol and shut down." ∷ []),
              g',
            ),
          )
    unfolding run_server serve_inputs or_complain
    run_server-seen options disk inputs before between after request console service server g₀ g g'
          response read answered open_yet computed =
        rw (read, served) refl
      where
        served :
            serve fuel flags
              (before ++ (answer (second_round request) ∷ (between ++ (poll true ∷ after))))
              (make_service (make_server inputs), g₀)
            ≡ (ok tt, (closed fuel flags server, g'))
        served =
            let (cipher, has_key, same) =
              compute_intersection_ok fuel flags request service.server server g g' response
                computed in
            serve_before before _ (make_service (make_server inputs), g₀) (service, g) answered
              open_yet
            ∙ serve_answered request (between ++ (poll true ∷ after)) (service, g)
                (closed fuel flags server, g')
                (answer_request-second_round fuel flags request service server g g' response
                  open_yet computed)
            ∙ serve_seen between after cipher server g' (ap Server.ec_cipher same ∙ has_key)
