-- ===== src/Sample/Proto.antt =====
-- A small code for the saved states, in the place of protobuf's: each field behind a mark and its
-- length.
use private_join_and_compute.Prelude.{
  ℕ, zero, suc, ◌≡◌, refl, none, some, [], ◌∷◌, ◌++◌, Option, length,
}
use private_join_and_compute.Prelude.Bytes.{Bytes}
use private_join_and_compute.Match.{ClientState, Proto, ProtoLaws}

abbrev field_bytes : Option Bytes → Bytes → Bytes
field_bytes none rest = 0 ∷ rest
field_bytes (some b) rest = 1 ∷ length b ∷ (b ++ rest)

abbrev split : ℕ → Bytes → Bytes × Bytes
split zero b = ([], b)
split (suc n) [] = ([], [])
split (suc n) (x ∷ b) = let (front, rest) = split n b in (x ∷ front, rest)

abbrev read_field : Bytes → Option Bytes × Bytes
read_field (suc mark ∷ n ∷ b) = let (front, rest) = split n b in (some front, rest)
read_field (zero ∷ b) = (none, b)
read_field b = (none, b)

split-append : (b rest : Bytes) → split (length b) (b ++ rest) ≡ (b, rest)
split-append [] rest = refl
split-append (x ∷ b) rest = rw (split-append b rest)

read_field-field_bytes :
    (f : Option Bytes) (rest : Bytes) → read_field (field_bytes f rest) ≡ (f, rest)
read_field-field_bytes none rest = refl
read_field-field_bytes (some b) rest = rw (split-append b rest)

abbrev parse_client_fields : Bytes → ClientState
parse_client_fields b =
    let (p, after_p) = read_field b in
    let (q, after_q) = read_field after_p in
    let (ec_key, after_key) = read_field after_q in record { p = p; q = q; ec_key = ec_key }

instance abbrev pub sample_proto : Proto
sample_proto = record {
  serialize_server = λ s. field_bytes s.ec_key [];
  parse_server = λ b. some (record { ec_key = (read_field b).0 });
  serialize_client = λ s. field_bytes s.p (field_bytes s.q (field_bytes s.ec_key []));
  parse_client = λ b. some (parse_client_fields b);
}

pub sample_proto_laws : ProtoLaws sample_proto
sample_proto_laws = record {
  server_round_trip = λ s. rw (read_field-field_bytes s.ec_key []);
  client_round_trip = λ s. rw (
    read_field-field_bytes s.p (field_bytes s.q (field_bytes s.ec_key [])),
    read_field-field_bytes s.q (field_bytes s.ec_key []),
    read_field-field_bytes s.ec_key [],
  );
}
