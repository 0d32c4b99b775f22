-- ===== src/Protocol.antt =====
-- The messages of pkg/transfer/protocol.go and session.go and their JSON form (json.go).
pub mod Roundtrip
use lan_file_share.Common.{ℕ, String, List, Bool, false, ◌≡◌}
use lan_file_share.Common.Int.{ℤ}
use lan_file_share.Errors.{Result, ok, err}

pub data MessageType : Type 0 where
  transfer_structure chunk_data file_begin file_complete transfer_begin : MessageType
  transfer_cancel transfer_complete progress_update : MessageType

pub record TransferSession : Type 0 where
  pub service_id : String
  pub session_id : String
  pub session_create_at : ℤ

-- The hash is a hexadecimal text, the sequence number a uint32.
pub record ChunkMessage : Type 0 where
  pub type : MessageType
  pub session : TransferSession
  pub file_id : String
  pub file_name : List ℕ
  pub sequence_no : ℕ
  pub offset : ℤ
  pub bytes : List ℕ
  pub chunk_hash : String
  pub total_size : ℤ
  pub expected_hash : String
  pub error_message : String

-- The struct with the JSON tags.
pub record JsonChunkMessage : Type 0 where
  pub type : MessageType
  pub session : TransferSession
  pub file_id : String
  pub file_name : List ℕ
  pub sequence_no : ℕ
  pub offset : ℤ
  pub bytes : List ℕ
  pub chunk_hash : String
  pub total_size : ℤ
  pub expected_hash : String
  pub error_message : String

to_json : ChunkMessage → JsonChunkMessage
to_json msg = record {
  type = msg.type;
  session = msg.session;
  file_id = msg.file_id;
  file_name = msg.file_name;
  sequence_no = msg.sequence_no;
  offset = msg.offset;
  bytes = msg.bytes;
  chunk_hash = msg.chunk_hash;
  total_size = msg.total_size;
  expected_hash = msg.expected_hash;
  error_message = msg.error_message;
}

from_json : JsonChunkMessage → ChunkMessage
from_json msg = record {
  type = msg.type;
  session = msg.session;
  file_id = msg.file_id;
  file_name = msg.file_name;
  sequence_no = msg.sequence_no;
  offset = msg.offset;
  bytes = msg.bytes;
  chunk_hash = msg.chunk_hash;
  total_size = msg.total_size;
  expected_hash = msg.expected_hash;
  error_message = msg.error_message;
}

-- The package encoding/json on this struct: what is encoded is decoded again.
pub record JsonCodec : Type 0 where
  pub encode : JsonChunkMessage → Result (List ℕ)
  pub decode : List ℕ → Result JsonChunkMessage
  pub decode-encode :
      (msg : JsonChunkMessage) (text : List ℕ) → encode msg ≡ ok text → decode text ≡ ok msg

-- JSONSerializer.Marshal
unfoldable pub marshal : JsonCodec → ChunkMessage → Result (List ℕ)
unfolding to_json
marshal json msg = json.encode (to_json msg)

-- JSONSerializer.Unmarshal
unfoldable pub unmarshal : JsonCodec → List ℕ → Result ChunkMessage
unfolding from_json
unmarshal json text = elim (json.decode text) [ err e ↦ err e | ok msg ↦ ok (from_json msg) ]
