-- ===== src/Protocol/Roundtrip.antt =====
-- A message that is marshalled is read back as it was.
use lan_file_share.Common.{ℕ, ◌≡◌, List, arith}
use lan_file_share.Errors.{ok}
use lan_file_share.Protocol.{ChunkMessage, JsonCodec, marshal, unmarshal, to_json}

-- Every field of a message survives JSONSerializer, whatever the message.
pub unmarshal-marshal :
    (json : JsonCodec) (msg : ChunkMessage) (text : List ℕ)
    → marshal json msg ≡ ok text
    → unmarshal json text ≡ ok msg
unfolding marshal unmarshal
unmarshal-marshal json msg text e = ground (arith, json.decode-encode (to_json msg) text e)
