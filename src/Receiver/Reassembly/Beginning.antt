-- ===== src/Receiver/Reassembly/Beginning.antt =====
-- The first message of a file in ProcessChunk (pkg/receiver/file_receiver.go).

use lan_file_share.Common.{
  ℕ, ◌≡◌, refl, ap, sym, arith, true, false, some, none, List, [], ◌∷◌, ◌++◌, length, nat_eq,
  string_eq,
}
use lan_file_share.Common.Int.{pos}
use lan_file_share.Common.Maps.{lookup, insert, lookup-insert_self}
use lan_file_share.Common.Sets.{has}
use lan_file_share.Common.Text.{codes, text_eq}
use lan_file_share.Chunker.{Chunk}
use lan_file_share.Connection.{chunk_message}
use lan_file_share.FileNode.{FileNode, info}
use lan_file_share.Protocol.{TransferSession, ChunkMessage}
use lan_file_share.Receiver.{
  FileReceiver, FileReception, System, content, start_reception, receiving, receiving_file,
  process_message,
}
use lan_file_share.Receiver.Paths.{output_path}
use lan_file_share.Receiver.Reassembly.Sizes.{size_in-nil}
use lan_file_share.Receiver.Reassembly.Steps.{IsWorking, IsReceiving}
use lan_file_share.Receiver.Reassembly.Runs.{and_then, process_all}

-- The reception that ProcessChunk begins for a file that is new, and the receiver with it.
abbrev pub begun : ChunkMessage → List ℕ → FileReception
begun msg path = record {
  file_path = msg.file_id;
  file_name = msg.file_name;
  total_size = msg.total_size;
  received_size = pos 0;
  expected_hash = msg.expected_hash;
  is_open = true;
  received_chunks = [];
  is_complete = false;
  status = receiving;
  verification_err = none;
  output_path = path;
}

abbrev pub with_begun : FileReceiver → ChunkMessage → List ℕ → FileReceiver
with_begun fr msg path = record fr {
  disk = insert path [] fr.disk;
  current_files = insert msg.file_id (begun msg path) fr.current_files;
  ui_messages = fr.ui_messages ++ receiving_file msg.file_name ∷ [];
}

start_reception_lem :
    (sys : System) (fr : FileReceiver) (msg : ChunkMessage) (path : List ℕ)
    → output_path fr.output_dir msg.file_name ≡ some path
    → sys.create path ≡ none
    → start_reception sys fr msg ≡ (with_begun fr msg path, none)
unfolding start_reception
start_reception_lem sys fr msg path place creates = ground (arith, place, creates)

pub first_message :
    (sys : System) (fr : FileReceiver) (msg : ChunkMessage) (path : List ℕ)
    → lookup msg.file_id fr.current_files ≡ none
    → output_path fr.output_dir msg.file_name ≡ some path
    → sys.create path ≡ none
    → process_message sys fr msg ≡ process_message sys (with_begun fr msg path) msg
unfolding process_message
first_message sys fr msg path unknown place creates =
    rw
      (
        unknown,
        start_reception_lem sys fr msg path place creates,
        lookup-insert_self msg.file_id (begun msg path) fr.current_files,
      )
      refl

pub begun-IsReceiving :
    (session : TransferSession) (n : FileNode) (file : List ℕ) (chunks : List Chunk) (path : List ℕ)
    (fr : FileReceiver) (c : Chunk)
    → (info n).size ≡ pos (length file)
    → let msg = chunk_message session n c in
      IsReceiving n file chunks path (with_begun fr msg path) (begun msg path)
unfolding chunk_message has
begun-IsReceiving session n file chunks path fr c size = record {
  found =
      lookup-insert_self (info n).path (begun (chunk_message session n c) path) fr.current_files;
  open_file = refl;
  place = refl;
  total = size;
  expected = refl;
  counted = ap pos (sym (size_in-nil chunks));
  short = rw (content, lookup-insert_self path [] fr.disk) (omega arith);
  agrees = λ d i m h k. absurd (ground (arith, h));
}

module _ (sys : System) (session : TransferSession) (n : FileNode) (path : List ℕ)
    (fr : FileReceiver) (works : IsWorking sys path)
    (unknown : lookup (info n).path fr.current_files ≡ none)
    (place : output_path fr.output_dir (codes (info n).name) ≡ some path) where
  -- Messages of a new file are processed like messages of the reception that the first begins.
  pub first_messages :
      (c : Chunk) (ms : List ChunkMessage)
      → process_all sys fr (chunk_message session n c ∷ ms)
        ≡ process_all sys
            (with_begun fr (chunk_message session n c) path)
            (chunk_message session n c ∷ ms)
  unfolding process_all chunk_message
  first_messages c ms =
      ap (and_then (λ fr'. process_all sys fr' ms))
        (first_message sys fr (chunk_message session n c) path unknown place works.creates)
