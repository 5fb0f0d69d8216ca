-- ===== src/Programs/RunServer/Requests.antt =====
-- When the server's program ends with 0: after a second round that succeeded, and not before.
use Prim.Native.String.{◌++◌ as append}
use private_join_and_compute.Prelude.{
  ℕ, true, false, Bool, List, [], ◌∷◌, ◌++◌, ◌≡◌, refl, sym, ap, ◌∙◌, some, inl, inr, ◌⊎◌,
}
use private_join_and_compute.Prelude.Bytes.{Bytes}
use private_join_and_compute.Util.Result.{Result, ok, err, die, running}
use private_join_and_compute.Util.Exec
use private_join_and_compute.Util.Exec.{continue-ok}
use private_join_and_compute.Crypto.OpenSsl.{OpenSsl}
use private_join_and_compute.Crypto.Flags.{Flags}
use private_join_and_compute.Crypto.CommutativeCipher.{CommutativeCipher}
use private_join_and_compute.Match.{ClientRoundOne, ServerRoundTwo}
use private_join_and_compute.Server.{Server, compute_intersection, make_server}
use private_join_and_compute.Rpc.{
  Service, Request, starting, second_round, make_service, start_protocol, answer_request,
  execute_server_round_two, finished, reply,
}
use private_join_and_compute.Rpc.Session.{
  State, answer_all, closed, compute_intersection_ok, answer_request-finished,
}
use private_join_and_compute.Data.Absl.{Absl}
use private_join_and_compute.Data.Files.{Files, read_server_dataset_from_file}
use private_join_and_compute.Programs.{Line, out, or_complain-zero}
use private_join_and_compute.Programs.RunServer.{
  Event, answer, poll, ServerFlags, serve, serve_inputs, run_server,
}

-- The requests that are answered among the events.
unfoldable pub requests_of : List Event → List Request
requests_of [] = []
requests_of (answer request ∷ events) = request ∷ requests_of events
requests_of (poll sees ∷ events) = requests_of events

pub continue_state :
    {A S : Type 0} (r : Result A) (s : S) → (Exec.continue {0, 0} r (λ _. Exec.pure tt) s).1 ≡ s
continue_state (ok a) s = refl
continue_state (err status) s = refl
continue_state die s = refl
continue_state running s = refl

module _ ⦃lib : OpenSsl⦄ (fuel : ℕ) (flags : Flags) where
  -- The events have a second round for which the intersection was computed, by a service that was not
  -- finished; `s'` is what that left.
  pub record Completed (events : List Event) (s s' : State fuel flags) : Type 0 where
    pub before : List Event
    pub request : ClientRoundOne
    pub after : List Event
    pub service : Service lib
    pub generator : lib.Rng
    pub response : ServerRoundTwo
    pub server : Server lib
    pub events_lem : events ≡ before ++ (answer (second_round request) ∷ after)
    pub answered : answer_all fuel flags (requests_of before) s ≡ (ok tt, (service, generator))
    pub unfinished : service.protocol_finished ≡ false
    pub computed :
        compute_intersection fuel flags request (service.server, generator)
        ≡ (ok response, (server, s'.1))
    pub left : s'.0 ≡ closed fuel flags service.server

  -- Once the protocol is finished, nothing changes any more until the loop ends.
  serve-closed :
      (events : List Event) (cipher : CommutativeCipher lib) (server : Server lib) (g : lib.Rng)
      (s' : State fuel flags)
      → server.ec_cipher ≡ some cipher
      → serve fuel flags events (closed fuel flags server, g) ≡ (ok tt, s')
      → s' ≡ (closed fuel flags server, g)
  unfolding serve
  serve-closed [] cipher server g s' has_key h = absurd (cc)
  serve-closed (answer request ∷ events) cipher server g s' has_key h =
      serve-closed events cipher server g s' has_key
        (rw (answer_request-finished fuel flags request cipher server g has_key) at h)
  serve-closed (poll true ∷ events) cipher server g s' has_key h = sym (ap (λ r. r.1) h)
  serve-closed (poll false ∷ events) cipher server g s' has_key h =
      serve-closed events cipher server g s' has_key h

  answered_first :
      (request : Request) (events : List Event) (s s₁ s' : State fuel flags)
      → answer_request fuel flags request s ≡ (ok tt, s₁)
      → Completed events s₁ s'
      → Completed (answer request ∷ events) s s'
  unfolding requests_of answer_all
  answered_first request events s s₁ s' e c = record {
    before = answer request ∷ c.before;
    request = c.request;
    after = c.after;
    service = c.service;
    generator = c.generator;
    response = c.response;
    server = c.server;
    events_lem = ap (◌∷◌ (answer request)) c.events_lem;
    answered = rw e c.answered;
    unfinished = c.unfinished;
    computed = c.computed;
    left = c.left;
  }

  polled_first :
      (sees : Bool) (events : List Event) (s s' : State fuel flags)
      → Completed events s s'
      → Completed (poll sees ∷ events) s s'
  unfolding requests_of
  polled_first sees events s s' c = record {
    before = poll sees ∷ c.before;
    request = c.request;
    after = c.after;
    service = c.service;
    generator = c.generator;
    response = c.response;
    server = c.server;
    events_lem = ap (◌∷◌ (poll sees)) c.events_lem;
    answered = c.answered;
    unfinished = c.unfinished;
    computed = c.computed;
    left = c.left;
  }

  -- A request for the first round does not finish the protocol.
  starting-unfinished :
      (service : Service lib) (g : lib.Rng)
      → service.protocol_finished ≡ false
      → (answer_request fuel flags starting (service, g)).1.0.protocol_finished ≡ false
  unfolding answer_request start_protocol
  starting-unfinished service g open_yet =
      ap (λ s. s.0.protocol_finished)
        (continue_state (start_protocol fuel (service, g)).0 (start_protocol fuel (service, g)).1)
      ∙ open_yet

  -- What a request for the second round leaves, where the process lives.
  second_round-cases :
      (r : Result ServerRoundTwo) (request : ClientRoundOne) (events : List Event)
      (service : Service lib) (server : Server lib) (g g' : lib.Rng) (s' : State fuel flags)
      → compute_intersection fuel flags request (service.server, g) ≡ (r, (server, g'))
      → service.protocol_finished ≡ false
      → serve fuel flags (answer (second_round request) ∷ events) (service, g) ≡ (ok tt, s')
      → ((response : ServerRoundTwo) × (r ≡ ok response)
          × (serve fuel flags events (closed fuel flags server, g') ≡ (ok tt, s')))
        ⊎ ((answer_request fuel flags (second_round request) (service, g)
              ≡ (ok tt, (record { server = server; protocol_finished = false }, g')))
            × (serve fuel flags events (record { server = server; protocol_finished = false }, g')
                ≡ (ok tt, s')))
  unfolding serve answer_request execute_server_round_two finished reply
  second_round-cases (ok response) request events service server g g' s' e open_yet h =
      inl (response, refl, rw (e, open_yet) at h)
  second_round-cases (err status) request events service server g g' s' e open_yet h =
      inr (rw (e, open_yet) refl, rw (e, open_yet) at h)
  second_round-cases die request events service server g g' s' e open_yet h =
      let no = rw (e, open_yet) at h in absurd (cc)
  second_round-cases running request events service server g g' s' e open_yet h =
      let no = rw (e, open_yet) at h in absurd (cc)

  serve-Completed :
      (events : List Event) (service : Service lib) (g : lib.Rng) (s' : State fuel flags)
      → service.protocol_finished ≡ false
      → serve fuel flags events (service, g) ≡ (ok tt, s')
      → Completed events (service, g) s'
  unfolding serve
  serve-Completed [] service g s' open_yet h = absurd (cc)
  serve-Completed (poll sees ∷ events) service g s' open_yet h =
      polled_first sees events (service, g) s'
        (serve-Completed events service g s' open_yet (rw (open_yet, serve) at h))
  serve-Completed (answer starting ∷ events) service g s' open_yet h =
      let s₁ = (answer_request fuel flags starting (service, g)).1 in
      let (_, done, rest) =
        continue-ok (answer_request fuel flags starting (service, g)).0 _ s₁ s' h in
      answered_first starting events (service, g) s₁ s' (ap (λ r. (r, s₁)) done)
        (serve-Completed events s₁.0 s₁.1 s' (starting-unfinished service g open_yet) rest)
  serve-Completed (answer (second_round request) ∷ events) service g s' open_yet h =
      let after = compute_intersection fuel flags request (service.server, g) in
      elim (second_round-cases after.0 request events service after.1.0 g after.1.1 s' refl open_yet
        h) [
          | inl (response, succeeded, rest) ↦
              let computed = ap (λ r. (r, after.1)) succeeded in
              let (cipher, has_key, same) =
                compute_intersection_ok fuel flags request service.server after.1.0 g after.1.1
                  response computed in
              let ended =
                serve-closed events cipher after.1.0 after.1.1 s'
                  (ap Server.ec_cipher same ∙ has_key) rest in
              record {
                before = [];
                request = request;
                after = events;
                service = service;
                generator = g;
                response = response;
                server = after.1.0;
                events_lem = refl;
                answered = unfold requests_of answer_all in refl;
                unfinished = open_yet;
                computed = computed ∙ ap (λ s. (ok response, (after.1.0, s.1))) (sym ended);
                left = ap (λ s. s.0) ended ∙ ap (λ t. closed fuel flags t) same;
              }
          | inr (done, rest) ↦
              answered_first (second_round request) events (service, g) _ s' done
                (serve-Completed events (record { server = after.1.0; protocol_finished = false })
                  after.1.1 s' refl rest)
        ]

  module _ ⦃absl : Absl⦄ ⦃files : Files⦄ where
    listened :
        (options : ServerFlags) (events : List Event) (inputs : List Bytes) (console : List Line)
        (g : lib.Rng) (s' : List Line × lib.Rng)
        → serve_inputs fuel flags options events inputs (console, g) ≡ (ok 0, s')
        → (t : State fuel flags) × (serve fuel flags events (make_service (make_server inputs), g)
            ≡ (ok tt, t))
          × (s' ≡ (
            console
                ++ (out (append "Server: listening on " options.port) ∷ [])
                ++ (out "Server completed protocol and shut down." ∷ []),
            t.1,
          ))
    unfolding serve_inputs
    listened options events inputs console g s' h =
        let served = serve fuel flags events (make_service (make_server inputs), g) in
        let (_, done, rest) = continue-ok (served.0) _ _ s' h in
        (served.1, ap (λ r. (r, served.1)) done, sym (ap (λ r. r.1) rest))

    -- Whatever requests are answered and whatever reads of the flag miss its change, the program ends with
    -- 0 only where the server's file was read, and among the events is a second round for which the
    -- intersection was computed: the requests before it left the service unfinished, and it was
    -- computed on the service and the generator that they left. The lines say that the data was loaded,
    -- that the server listened, and that the protocol completed, and the generator is as that
    -- computation left it.
    pub run_server-zero :
        (options : ServerFlags) (disk : files.Disk) (events : List Event) (console : List Line)
        (g : lib.Rng) (s' : List Line × lib.Rng)
        → run_server fuel flags options disk events (console, g) ≡ (ok 0, s')
        → (inputs : List Bytes) × (t : State fuel flags) × (read_server_dataset_from_file
              options.server_data_file disk
            ≡ ok inputs)
          × Completed events (make_service (make_server inputs), g) t
          × (s' ≡ (
            console
                ++ (out "Server: loading data... " ∷ [])
                ++ (out (append "Server: listening on " options.port) ∷ [])
                ++ (out "Server completed protocol and shut down." ∷ []),
            t.1,
          ))
    unfolding run_server make_service
    run_server-zero options disk events console g s' h =
        let (inputs, read, rest) =
          or_complain-zero (read_server_dataset_from_file options.server_data_file disk) _ _ _ s'
            h in
        let (t, served, printed) = listened options events inputs _ g s' rest in
        (inputs, t, read, serve-Completed events _ g t refl served, printed)
