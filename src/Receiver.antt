-- ===== src/Receiver.antt =====
-- FileReceiver of pkg/receiver/file_receiver.go. A method maps the receiver and the disk to those
-- after it, and an error if it failed: what was written before a failure stays written. What the
-- receiver holds by a pointer, a reception of its map, is written back to the map.
pub mod Paths
pub mod Announced
pub mod Frame
pub mod Sessions
pub mod Reassembly
use lan_file_share.Common.{
  ℕ, Bool, true, false, not, ◌&&◌, String, Option, none, some, List, [], ◌∷◌, ◌++◌, length, take,
  ◌==◌, string_eq, nat_eq, if◌then◌else◌, ltb, leb,
}
use lan_file_share.Common.Int.{ℤ, pos, negsuc, pos_part, neg_part, add64, leb_ℤ, ltb_ℤ}
use lan_file_share.Common.Maps.{Map, lookup, insert, delete, is_some}
use lan_file_share.Common.Sets.{has, add}
use lan_file_share.Common.Text.{codes, text_eq}
use lan_file_share.Errors.{Error, message, wrapped, Result, ok, err}
use lan_file_share.Bytes.{write_at}
use lan_file_share.Protocol.{ChunkMessage}
use Paths.{output_path}

pub data ReceptionStatus : Type 0 where
  pending receiving verifying completed failed cancelled : ReceptionStatus

-- `is_open` says whether the file handle is open; its file is the one at the output path.
pub record FileReception : Type 0 where
  pub file_path : String
  pub file_name : List ℕ
  pub total_size : ℤ
  pub received_size : ℤ
  pub expected_hash : String
  pub is_open : Bool
  pub received_chunks : List ℕ
  pub is_complete : Bool
  pub status : ReceptionStatus
  pub verification_err : Option Error
  pub output_path : List ℕ

-- The messages to the UI; without a UI channel nothing reads them.
pub data UiMessage : Type 0 where
  receiving_file verifying_file file_verified reception_completed : List ℕ → UiMessage
  verification_failed : List ℕ → Error → UiMessage
  transfer_finished : UiMessage

pub record FileReceiver : Type 0 where
  pub current_files : Map String FileReception
  pub output_dir : List ℕ
  pub expected_files : ℤ
  pub completed_files : ℤ
  pub session_complete : Bool
  pub ui_messages : List UiMessage
  -- The files on the disk by their paths.
  pub disk : Map (List ℕ) (List ℕ)

-- What the operating system answers to the calls made while one chunk is processed: an error of
-- each call that fails, for a write also how many bytes it wrote before. `hash` is the hexadecimal
-- SHA-256 of some bytes.
pub record System : Type 0 where
  pub create : List ℕ → Option Error
  pub seek : List ℕ → ℤ → Option Error
  pub write : List ℕ → ℤ → List ℕ → Option (ℕ × Error)
  pub close : List ℕ → Option Error
  pub read : List ℕ → Option Error
  pub remove : List ℕ → Option Error
  pub hash : List ℕ → String

abbrev pub Outcome : Type 0
Outcome = FileReceiver × Option Error

-- NewFileReceiver
abbrev pub new_file_receiver : List ℕ → Map (List ℕ) (List ℕ) → FileReceiver
new_file_receiver dir disk = record {
  current_files = [];
  output_dir = dir;
  expected_files = pos 0;
  completed_files = pos 0;
  session_complete = false;
  ui_messages = [];
  disk = disk;
}

-- SetExpectedFiles
unfoldable pub set_expected_files : FileReceiver → ℤ → FileReceiver
set_expected_files fr count = record fr { expected_files = count }

abbrev tell : FileReceiver → UiMessage → FileReceiver
tell fr m = record fr { ui_messages = fr.ui_messages ++ m ∷ [] }

abbrev put : FileReceiver → String → FileReception → FileReceiver
put fr id r = record fr { current_files = insert id r fr.current_files }

abbrev pub content : FileReceiver → List ℕ → List ℕ
content fr path = elim (lookup path fr.disk) [ none ↦ [] | some bytes ↦ bytes ]

-- The part of ProcessChunk for a file that is not being received yet.
unfoldable pub start_reception : System → FileReceiver → ChunkMessage → Outcome
start_reception sys fr msg = elim (output_path fr.output_dir msg.file_name) [
  | none ↦ (fr, some (message (codes "invalid output path: ")))
  | some path ↦ elim (sys.create path) [
    | some e ↦ (fr, some (wrapped (codes "failed to create output file " ++ path) e))
    | none ↦ (
      tell
          (put (record fr { disk = insert path [] fr.disk }) msg.file_id
            (record {
              file_path = msg.file_id;
              file_name = msg.file_name;
              total_size = msg.total_size;
              received_size = pos 0;
              expected_hash = msg.expected_hash;
              is_open = true;
              received_chunks = [];
              is_complete = false;
              status = receiving;
              verification_err = none;
              output_path = path;
            }))
          (receiving_file msg.file_name),
      none,
    )
  ]
]

-- Seek fails on a closed file and at a negative offset.
abbrev seek_error : System → FileReception → ℤ → Option Error
seek_error sys r offset =
    if not r.is_open
    then some (message (codes "file already closed"))
    else if ltb_ℤ offset (pos 0)
    then some (message (codes "invalid argument"))
    else sys.seek r.output_path offset

-- The write of the bytes, the check of their number (which an error comes with) and the notes.
write_bytes : System → FileReceiver → FileReception → ChunkMessage → Outcome
write_bytes sys fr r msg = elim (sys.write r.output_path msg.offset msg.bytes) [
  | some (n, e) ↦ (
    record fr {
      disk =
          insert r.output_path
            (write_at (content fr r.output_path) (pos_part msg.offset) (take n msg.bytes)) fr.disk;
    },
    some (wrapped (codes "failed to write chunk") e),
  )
  | none ↦ (
    put
        (record fr {
          disk =
              insert r.output_path
                (write_at (content fr r.output_path) (pos_part msg.offset) msg.bytes) fr.disk;
        })
        msg.file_id
        (record r {
          received_chunks = add msg.sequence_no r.received_chunks;
          received_size = add64 r.received_size (pos (length msg.bytes));
        }),
    none,
  )
]

-- writeChunkAtOffset
unfoldable pub write_chunk_at_offset :
    System → FileReceiver → FileReception → ChunkMessage → FileReceiver × Option Error
unfolding write_bytes
write_chunk_at_offset sys fr r msg =
    if has r.received_chunks msg.sequence_no
    then (fr, none)
    else elim (seek_error sys r msg.offset) [
      | some e ↦ (fr, some (wrapped (codes "failed to seek to offset") e))
      | none ↦ write_bytes sys fr r msg
    ]

-- verifyFileIntegrity, by FileNode.VerifySHA256 of the file on the disk.
unfoldable pub verify_file_integrity : System → FileReceiver → FileReception → Option Error
verify_file_integrity sys fr r = elim (sys.read r.output_path) [
  | some e ↦ some (wrapped (codes "failed to calculate file hash") e)
  | none ↦
      if sys.hash (content fr r.output_path) == r.expected_hash
      then none
      else some (message (codes "file hash mismatch - file may be corrupted during transmission"))
]

-- cleanupCorruptedFile, whose error is only logged.
unfoldable pub cleanup_corrupted_file : System → FileReceiver → FileReception → FileReceiver
cleanup_corrupted_file sys fr r =
    if r.output_path == [] then fr else elim (sys.remove r.output_path) [
      | some e ↦ fr
      | none ↦ record fr { disk = delete r.output_path fr.disk }
    ]

-- The end of completeFile.
finish_reception : FileReceiver → String → FileReception → Outcome
finish_reception fr id r = (
  tell (put fr id (record r { status = completed; is_complete = true }))
      (reception_completed r.file_name),
  none,
)

after_verification : System → FileReceiver → String → FileReception → Option Error → Outcome
unfolding finish_reception
after_verification sys fr id r none = finish_reception (tell fr (file_verified r.file_name)) id r
after_verification sys fr id r (some e) =
    let r' = record r { status = failed; verification_err = some e } in
    (
      tell (cleanup_corrupted_file sys (put fr id r') r') (verification_failed r.file_name e),
      some (wrapped (codes "file integrity verification failed for " ++ r.file_name) e),
    )

abbrev close_error : System → FileReception → Option Error
close_error sys r =
    if not r.is_open then some (message (codes "file already closed")) else sys.close r.output_path

-- completeFile of the reception under an ID.
unfoldable pub complete_file :
    System → FileReceiver → String → FileReception → FileReceiver × Option Error
unfolding after_verification
complete_file sys fr id r = elim (close_error sys r) [
  | some e ↦
      (put fr id (record r { status = failed }), some (wrapped (codes "failed to close file") e))
  | none ↦
      let r' = record r { is_open = false } in
      if r.expected_hash == ""
      then finish_reception fr id r'
      else (let r'' = record r' { status = verifying } in
          let fr' = tell (put fr id r'') (verifying_file r.file_name) in
          after_verification sys fr' id r'' (verify_file_integrity sys fr' r''))
]

-- What ProcessChunk does after a file is completed.
count_completed : FileReceiver → String → FileReceiver
count_completed fr id =
    let done = add64 fr.completed_files (pos 1) in
    let fr' = record fr { current_files = delete id fr.current_files; completed_files = done } in
    if ltb_ℤ (pos 0) fr.expected_files && (leb_ℤ fr.expected_files done && not fr.session_complete)
    then tell (record fr' { session_complete = true }) transfer_finished
    else fr'

abbrev then_count : Outcome → String → Outcome
then_count (fr, some e) id = (fr, some (wrapped (codes "failed to complete file") e))
then_count (fr, none) id = (count_completed fr id, none)

-- The check of ProcessChunk for a complete file, on the reception after the write.
unfoldable pub check_complete : System → FileReceiver → String → Option FileReception → Outcome
unfolding complete_file count_completed
check_complete sys fr id none = (fr, none)
check_complete sys fr id (some r) =
    if leb_ℤ r.total_size r.received_size
    then then_count (complete_file sys fr id r) id
    else (fr, none)

abbrev then_check : System → Outcome → String → Outcome
then_check sys (fr, some e) id = (fr, some (wrapped (codes "failed to write chunk at offset") e))
then_check sys (fr, none) id = check_complete sys fr id (lookup id fr.current_files)

write_and_check : System → FileReceiver → ChunkMessage → Option FileReception → Outcome
unfolding check_complete
write_and_check sys fr msg none = (fr, none)
write_and_check sys fr msg (some r) =
    then_check sys (write_chunk_at_offset sys fr r msg) msg.file_id

abbrev then_write : System → Outcome → ChunkMessage → Outcome
then_write sys (fr, some e) msg = (fr, some e)
then_write sys (fr, none) msg = write_and_check sys fr msg (lookup msg.file_id fr.current_files)

-- ProcessChunk of a message that could be read.
unfoldable pub process_message : System → FileReceiver → ChunkMessage → FileReceiver × Option Error
unfolding start_reception write_and_check
process_message sys fr msg =
    if is_some (lookup msg.file_id fr.current_files)
    then write_and_check sys fr msg (lookup msg.file_id fr.current_files)
    else then_write sys (start_reception sys fr msg) msg

-- ProcessChunk; `unmarshal` is the serializer's.
unfoldable pub process_chunk :
    (List ℕ → Result ChunkMessage) → System → FileReceiver → List ℕ → FileReceiver × Option Error
unfolding process_message
process_chunk unmarshal sys fr text = elim (unmarshal text) [
  | err e ↦ (fr, some (wrapped (codes "failed to unmarshal chunk message") e))
  | ok msg ↦ process_message sys fr msg
]
