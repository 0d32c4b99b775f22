-- ===== src/Lib.antt =====
-- The transfer core of lanFileShare, a Go program that sends files between machines of a local
-- network: pkg/transfer, the sending of files in pkg/webrtc/connection.go, the receiver's reassembly in
-- pkg/receiver/file_receiver.go, the node type of pkg/fileInfo, the receiver's request in
-- internal/app/state.go and the guard of pkg/concurrency; and around it the signed file structure of
-- pkg/crypto/signature.go, which the request carries, the two ends of the request's stream of events
-- (api/receiver.go, api/signaler.go), the receiver's application (pkg/receiver/app.go) and the file
-- picker of pkg/multiFilePicker.
--
-- The sender adds files and folders to a UnifiedTransferManager. It keeps a FileStructureManager (which
-- file and folder stands at which path), a Chunker for each file, three queues of paths (pending,
-- completed, failed), the status of the session with the file in transfer, and a RetryScheduler that
-- restarts failed files. SenderConn takes one pending file after another, reads its chunks and sends them
-- as ChunkMessages to the FileReceiver of the other machine, which writes them at their offsets and
-- verifies the finished file. Before that the receiver's SingleRequestManager holds the request, the
-- user's decision, the WebRTC answer and the candidates, behind a ConcurrencyGuard: the application
-- puts the answer and its candidates there when the user accepts, AskHandler writes them as events,
-- and the sender's APISignaler reads these for WaitForAnswer and its own connection.
--
-- Files and the code they model:
--   Common           shared names, Boolean tests, lists, Go's int64 and int32 with wrap-around, texts,
--                    and Go's maps and sets
--   Errors           the error values of pkg/transfer, `Error()` and `errors.Is`
--   State            TransferState and StatusSessionState (pkg/transfer/status.go)
--   Session          TransferStatus and SessionTransferStatus (pkg/transfer/status.go)
--   Retry            RetryPolicy (status.go), DefaultErrorHandler and ErrorContext (error_handler.go),
--                    RetryScheduler (retry_scheduler.go)
--   Config           TransferConfig (config.go)
--   StatusManager    TransferStatusManager (status_manager.go)
--   Queue            the queues of UnifiedTransferManager (unified_manager.go)
--   FileNode, FileStructure   fileInfo.FileNode and FileStructureManager (fileStructerManager.go)
--   Chunker          Chunker (chunker.go) and the chunks that transferFileChunks reads of one
--   Protocol         ChunkMessage and its JSON form (protocol.go, json.go, session.go)
--   Bytes, Receiver  FileReceiver (pkg/receiver/file_receiver.go) with the disk
--   Receiver.Reassembly   whole files through ProcessChunk
--   Connection       performFileTransfer and transferFileChunks (pkg/webrtc/connection.go) with the
--                    manager; with the receiver for one file (Connection.Delivery) and for all
--                    files of a session (Connection.EndToEnd, Connection.Collision)
--   Legacy           the older FileTransferManager (pkg/transfer/fileTransferManager.go)
--   Request          SingleRequestManager (internal/app/state.go)
--   Ask              AskHandler and CandidateHandler of the receiver (api/receiver.go)
--   Signaler         APISignaler of the sender (api/signaler.go), which reads what AskHandler writes;
--                    the two together (Signaler.Conversation), and with the receiver's acceptance of
--                    the request (Signaler.Handshake)
--   ReceiverApp      App of the receiver (pkg/receiver/app.go): a request that is accepted
--                    (ReceiverApp.Accepting), the chunks of all transfers (ReceiverApp.Announced)
--   Guard            ConcurrencyGuard (pkg/concurrency/guard.go)
--   Signature        the signed file structure (pkg/crypto/signature.go)
--   Picker           the file picker (pkg/multiFilePicker/multi-file-picker.go)
--   Manager          UnifiedTransferManager and executeRetry: files (Manager), the file in transfer
--                    (Manager.Transfers), the session and status look-up (Manager.Control)
--   Tests            the theorems at concrete inputs
--
-- How the code is read:
--   * A method is a function from its object to the object after it; a Go error is `Option Error` or
--     `Result`. A method that holds its locks from its first read to its last write is one step. Calls
--     of listeners, which run in goroutines of their own, and logging are left out.
--   * int and int64 are integers with 64-bit wrap-around, int32 with 32-bit wrap-around. Instants and
--     durations are nanoseconds; the readings of the clock within one call are one argument `now`.
--   * Maps are association lists with each key once, and nothing depends on their order; where the code
--     takes the first key that a range gives, the range is a parameter (Queue.MapRange).
--   * Parameters stand for what is no part of the repository: float64 (Session.Float64), open files
--     with the documented contract of Read (Chunker.FileSystem), encoding/json (Protocol.JsonCodec),
--     the answers of the operating system to the receiver (Receiver.System), the data channel, the
--     context and the clock of the sender (Connection.World), the scaling of a delay by
--     the back-off factor (RetryPolicy.scale), fileInfo.CreateNode (in FileStructure), the encoding, hash
--     and signature of Go's packages (Signature.Crypto), the listing of directories (Picker.Directories),
--     what AskHandler receives and writes (Ask.Surroundings), the JSON of the events that the sender's
--     signaler reads (Signaler.Json), and what the receiver meets while it accepts a request
--     (ReceiverApp.Handshake). bufio.Scanner, with its limit of a line, and the functions of Go's strings
--     that the signaler uses are written out.
--   * Where goroutines meet, in Request and Guard, the sections under a mutex are the steps of a relation,
--     and a channel is what was sent on it and not yet received. A call of Request that waits for a receiver
--     keeps the mutex, and the other calls wait with it; Ask and ReceiverApp begin where the mutex is free.
--   * A slice is a list of its elements, but in Signature, where its JSON shows whether it is nil.
--   * Three loops run on fuel. addFileNodeUnsafe takes one node off its queue each round, and gets the
--     number of nodes of the tree; the chunk loop reads at least one byte each round, and gets the
--     number of bytes of the file and one more. performFileTransfer takes a file each round; on a channel
--     that takes every message it needs the number of pending files and one more.
--   * Sequence numbers of chunks are uint32 values and a read may give a single byte, so what is said of whole
--     files on the sender's side is said of files of fewer than 2^32 bytes.
--
-- Not modelled: the user interface but for the keys of the file picker, the HTTP requests, responses and
-- middleware around the handlers and the signaler of api, discovery, the making of WebRTC connections, the
-- sender's application and the event loop of the receiver's, reading of the file system by
-- fileInfo.CreateNode and the system monitor: they are I/O, rendering or glue around the core. That the
-- retry scheduler's goroutine restarts a file while performFileTransfer runs is not modelled with it.
pub mod Common
pub mod Errors
pub mod State
pub mod Retry
pub mod Session
pub mod Config
pub mod StatusManager
pub mod Queue
pub mod FileNode
pub mod FileStructure
pub mod Bytes
pub mod Chunker
pub mod Protocol
pub mod Receiver
pub mod Connection
pub mod Signature
pub mod Picker
pub mod Guard
pub mod Legacy
pub mod Request
pub mod Ask
pub mod ReceiverApp
pub mod Signaler
pub mod Manager
mod Tests
