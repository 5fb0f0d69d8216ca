-- ===== src/Match.antt =====
-- match.proto: the messages of the protocol and the saved states. A field of bytes that is not set
-- reads as the empty string; where the code asks whether a field is set, it is an Option. The code
-- that protoc generates is a parameter.
use private_join_and_compute.Prelude.{◌≡◌, Option, some, List}
use private_join_and_compute.Prelude.Int.{ℤ}
use private_join_and_compute.Prelude.Bytes.{Bytes}

pub record EncryptedElement : Type 0 where
  pub element : Bytes
  pub associated_data : Bytes

abbrev pub EncryptedSet : Type 0
EncryptedSet = List EncryptedElement

pub record ServerRoundOne : Type 0 where
  pub encrypted_set : EncryptedSet

pub record ClientRoundOne : Type 0 where
  pub public_key : Bytes
  pub encrypted_set : EncryptedSet
  pub reencrypted_set : EncryptedSet

pub record ServerRoundTwo : Type 0 where
  -- an int64
  pub intersection_size : ℤ
  pub encrypted_sum : Bytes

pub record ServerState : Type 0 where
  pub ec_key : Option Bytes

pub record ClientState : Type 0 where
  pub p : Option Bytes
  pub q : Option Bytes
  pub ec_key : Option Bytes

-- SerializeAsString and ParseFromString of the two saved states.
pub record Proto : Type 0 where
  pub serialize_server : ServerState → Bytes
  pub parse_server : Bytes → Option ServerState
  pub serialize_client : ClientState → Bytes
  pub parse_client : Bytes → Option ClientState

-- What is serialized parses back.
pub record ProtoLaws (proto : Proto) : Type 0 where
  pub server_round_trip : (s : ServerState) → proto.parse_server (proto.serialize_server s) ≡ some s
  pub client_round_trip : (s : ClientState) → proto.parse_client (proto.serialize_client s) ≡ some s
