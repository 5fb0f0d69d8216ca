-- ===== src/Sample/Service.antt =====
-- The server's program at concrete requests.
use private_join_and_compute.Prelude.{ℕ, ◌≡◌, refl, true, false, List, [], ◌∷◌, arith}
use private_join_and_compute.Prelude.Int.{pos, ◌+ℤ◌, ◌-ℤ◌, ◌*ℤ◌, mod_ℤ}
use private_join_and_compute.Prelude.Bytes.{Bytes, bytes_lt}
use private_join_and_compute.Util.Macros
use private_join_and_compute.Util.Result.{ok}
use private_join_and_compute.Crypto.BigNum
use private_join_and_compute.Crypto.Context
use private_join_and_compute.Crypto.EcGroup
use private_join_and_compute.Crypto.CommutativeCipher
use private_join_and_compute.Crypto.FixedBaseExp
use private_join_and_compute.Crypto.Paillier.Precomp
use private_join_and_compute.Crypto.Paillier.Generator
use private_join_and_compute.Crypto.Paillier.Public
use private_join_and_compute.Std.{sort, insert}
use private_join_and_compute.Std.Order.{has, bytes_eq, keep, product}
use private_join_and_compute.Server.{
  Server, make_server, encrypt_set, encrypt_with_new_key, compute_intersection,
}
use private_join_and_compute.Rpc.{
  starting, second_round, answer_request, make_service, start_protocol, reply,
}
use private_join_and_compute.Protocol.Join
use private_join_and_compute.Protocol.Join.{common}
use private_join_and_compute.Protocol.Sum.{compute_with_cipher-common}
use private_join_and_compute.Data.Files.{
  read_server_dataset_from_file, read_server_lines, server_identifier, lines,
}
use private_join_and_compute.Data.Csv.{split_csv_line}
use private_join_and_compute.Programs.{Line, out, or_complain}
use private_join_and_compute.Rpc.Session.{
  State, answer_all, answer_request-second_round, answer_request-finished,
}
use private_join_and_compute.Programs.RunServer.{
  Event, answer, poll, serve, serve_inputs, run_server, ServerFlags,
}
use private_join_and_compute.Programs.RunServer.Requests.{Completed, requests_of, run_server-zero}
use private_join_and_compute.Programs.RunServer.Seen.{run_server-seen}
use private_join_and_compute.Sample.Numbers.{to_bytes, gcd_loop, search}
use private_join_and_compute.Sample.Library.{sample}
use private_join_and_compute.Sample.Group.{sample_laws, sample_curve}
use private_join_and_compute.Sample.Data.{
  group, client_cipher, server_cipher, flags, hash, client_keyed, server_keyed, key, items, inputs,
  joinable, group_created,
}
use private_join_and_compute.Sample.Files.{NamedTexts, sample_absl, sample_files}
use private_join_and_compute.Sample.Parties
use private_join_and_compute.Sample.Parties.{request, response}

abbrev server : Server sample
server = Parties.waiting

drawn_later : EcGroup.generate_private_key group 106 ≡ (ok (pos 7), 107)
unfolding EcGroup.generate_private_key Context.generate_rand_between Context.generate_rand_less_than
    BigNum.of_u64 BigNum.lt BigNum.sub BigNum.add ◌+ℤ◌ ◌-ℤ◌
drawn_later = refl

server_drawn : CommutativeCipher.create_with_new_key 713 106 ≡ (ok server_cipher, 107)
unfolding CommutativeCipher.create_with_new_key CommutativeCipher.make_cipher BigNum.mod_inverse
    search
server_drawn = rw (group_created, drawn_later)

key_made : Public.make_public flags 40 (pos 15) 2 107 ≡ (ok key, 108)
unfolding Public.make_public Precomp.get_powers Precomp.powers_loop Precomp.get_precomp
    Precomp.precomp_loop Generator.get_generator_for_safe_modulus
    Context.relatively_prime_random_less_than Context.generate_rand_less_than
    FixedBaseExp.get_fixed_base_exp BigNum.of_u64 BigNum.add BigNum.sub BigNum.mul BigNum.gcd
    BigNum.gt BigNum.mod_by BigNum.mod_exp BigNum.mod_mul BigNum.mod_sqr BigNum.mod_inverse
    BigNum.is_non_negative gcd_loop search ◌+ℤ◌ ◌-ℤ◌ ◌*ℤ◌ mod_ℤ
key_made = refl

zero_encrypted : Public.encrypt flags key (pos 0) 108 ≡ (ok (pos 1376), 109)
unfolding Public.encrypt Public.check_message Public.encrypt_using_generator_and_rand
    Precomp.compute_by_binomial_expansion Precomp.binomial_loop FixedBaseExp.mod_exp
    FixedBaseExp.impl_mod_exp Context.generate_rand_less_than BigNum.of_u64 BigNum.add BigNum.sub
    BigNum.mul BigNum.lt BigNum.le BigNum.is_non_negative BigNum.mod_by BigNum.mod_exp
    BigNum.mod_mul ◌+ℤ◌ ◌-ℤ◌ ◌*ℤ◌ mod_ℤ Macros.ret_invalid_arg_check
zero_encrypted = refl

computed : compute_intersection 40 flags request (server, 107) ≡ (ok response, (server, 109))
unfolding compute_intersection to_bytes common keep has bytes_eq product sort insert bytes_lt
computed = rw (
    compute_with_cipher-common sample_laws group sample_curve 40 hash client_cipher server_cipher
      client_keyed server_keyed items inputs joinable flags 15 1376 3375 key 107 108 109 key_made
      zero_encrypted refl (omega arith))

started :
    answer_request 40 flags starting (make_service (make_server inputs), 106)
    ≡ (ok tt, (record { server = server; protocol_finished = false }, 107))
unfolding answer_request start_protocol encrypt_set encrypt_with_new_key make_service make_server
    reply
started =
    rw
      (
        server_drawn,
        Join.encrypt_inputs_lem group sample_curve 40 hash client_cipher server_cipher client_keyed
            server_keyed inputs joinable.inputs_hashed,
      )
      refl

abbrev options : ServerFlags
options = record { port = "0.0.0.0:10501"; server_data_file = "server.csv" }

abbrev disk : NamedTexts
disk = ("server.csv", b'"' ∷ 3 ∷ b'"' ∷ 10 ∷ b'"' ∷ 4 ∷ b'"' ∷ 10 ∷ b'"' ∷ 1 ∷ b'"' ∷ 10 ∷ []) ∷ []

inputs_read : read_server_dataset_from_file "server.csv" disk ≡ ok inputs
unfolding read_server_dataset_from_file read_server_lines server_identifier lines split_csv_line
inputs_read = refl

-- The server is started, answers the second round, and ends where its flag is seen, past a read that
-- misses the change and a request that comes late.
abbrev events : List Event
events =
    poll true
    ∷ answer starting
    ∷ answer (second_round request)
    ∷ poll false
    ∷ answer starting
    ∷ poll true
    ∷ []

served : run_server 40 flags options disk events ([], 106) ≡ (
  ok 0,
  (
    out "Server: loading data... "
        ∷ out "Server: listening on 0.0.0.0:10501"
        ∷ out "Server completed protocol and shut down."
        ∷ [],
    109,
  ),
)
unfolding run_server serve_inputs serve make_service make_server or_complain
served =
    rw
      (
        inputs_read,
        started,
        answer_request-second_round 40 flags request
            (record { server = server; protocol_finished = false }) server 107 109 response refl
            computed,
        answer_request-finished 40 flags starting server_cipher server 109 refl,
      )
      refl

run_server-zero_example :
    (inputs : List Bytes) × (t : State 40 flags) × (read_server_dataset_from_file "server.csv" disk
      ≡ ok inputs)
    × Completed 40 flags events (make_service (make_server inputs), 106) t
    × (◌≡◌ {A = List Line × ℕ}
        (
          out "Server: loading data... "
              ∷ out "Server: listening on 0.0.0.0:10501"
              ∷ out "Server completed protocol and shut down."
              ∷ [],
          109,
        )
        (
          out "Server: loading data... "
              ∷ out "Server: listening on 0.0.0.0:10501"
              ∷ out "Server completed protocol and shut down."
              ∷ [],
          t.1,
        ))
run_server-zero_example = run_server-zero 40 flags options disk events [] 106 _ served

only_started :
    answer_all 40 flags
      (requests_of (poll true ∷ answer starting ∷ []))
      (make_service (make_server inputs), 106)
    ≡ (ok tt, (record { server = server; protocol_finished = false }, 107))
unfolding answer_all requests_of
only_started = rw started refl

run_server-seen_example : run_server 40 flags options disk events ([], 106) ≡ (
  ok 0,
  (
    out "Server: loading data... "
        ∷ out "Server: listening on 0.0.0.0:10501"
        ∷ out "Server completed protocol and shut down."
        ∷ [],
    109,
  ),
)
run_server-seen_example =
    run_server-seen 40 flags options disk inputs (poll true ∷ answer starting ∷ [])
      (poll false ∷ answer starting ∷ []) [] request []
      (record { server = server; protocol_finished = false }) server 106 107 109 response
      inputs_read only_started refl computed
