-- ===== src/Audit/Sinks.antt =====
-- archive/rust/src/audit/mod.rs: the sinks that write to a file, to a datagram socket and to a collector
-- that answers with a receipt.
pub mod Appended
pub mod Sent
use nordfir.Base.{ℕ, Text, str, ◌++◌}
use nordfir.Base.Io.{Io, continue, lift, context, ◌>>=◌, ◌>>◌}
use nordfir.Base.Time.{Duration, from_secs}
use nordfir.Format.{FilePath}
use nordfir.Files.{FileSystem}
use nordfir.Audit.{AuditSink}
use nordfir.Audit.LogChecks.{prepare_line, prepare_message, all_sent, accept}

module _ {S : Type 0} (fs : FileSystem S) (path : FilePath) where
  unfoldable pub append_line : Text → Io S (Unit {0})
  append_line line = do
    context (str "open audit log " ++ path ++ str ": ") (fs.open_append path 384)
    context (str "append audit log " ++ path ++ str ": ") (fs.append_and_sync path line)

  -- `FileAuditSink::record`
  unfoldable pub record_file : AuditSink S
  record_file event s = continue (prepare_line fs path event s) append_line s

-- `std::os::unix::net` as the sinks call it; a socket or a stream is a file descriptor.
pub record Sockets (S : Type 0) : Type 0 where
  pub unbound : Io S ℕ
  pub send_to : ℕ → Text → FilePath → Io S ℕ
  pub connect : FilePath → Io S ℕ
  pub set_read_timeout : ℕ → Duration → Io S (Unit {0})
  pub set_write_timeout : ℕ → Duration → Io S (Unit {0})
  pub write_all : ℕ → Text → Io S (Unit {0})
  pub shutdown_write : ℕ → Io S (Unit {0})
  -- `read_line` of at most so many bytes
  pub read_line : ℕ → ℕ → Io S Text

-- `UnixReceiptAuditSink::new` sets it.
abbrev receipt_timeout : Duration
receipt_timeout = from_secs 5

module _ {S : Type 0} (fs : FileSystem S) (sockets : Sockets S) (path : FilePath) where
  unfoldable pub forward_line : Text → Io S (Unit {0})
  forward_line line = do
    socket ← context (str "create audit forwarding socket: ") sockets.unbound
    sent ←
        context (str "forward audit event to " ++ path ++ str ": ")
          (sockets.send_to socket line path)
    lift (all_sent path line sent)

  -- `UnixDatagramAuditSink::record`
  unfoldable pub record_datagram : AuditSink S
  record_datagram event s =
      continue (prepare_message fs path (str "audit forwarding") event s) forward_line s

  unfoldable pub request_receipt : Text → Io S (Unit {0})
  request_receipt line = do
    stream ←
        context (str "connect to audit receipt collector " ++ path ++ str ": ")
          (sockets.connect path)
    context (str "configure audit receipt timeout: ")
        (sockets.set_read_timeout stream receipt_timeout)
    context (str "configure audit receipt timeout: ")
        (sockets.set_write_timeout stream receipt_timeout)
    context (str "send audit event for receipt: ") (sockets.write_all stream line)
    context (str "finish audit event for receipt: ") (sockets.shutdown_write stream)
    response ← context (str "read audit receipt: ") (sockets.read_line stream 267)
    lift (accept response)

  -- `UnixReceiptAuditSink::record`
  unfoldable pub record_receipt : AuditSink S
  record_receipt event s =
      continue (prepare_message fs path (str "audit receipt") event s) request_receipt s
