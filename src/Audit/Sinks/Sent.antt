-- ===== src/Audit/Sinks/Sent.antt =====
-- audit/mod.rs, the sinks behind a socket: what they write is no file.
use nordfir.Base.{◌≡◌, refl, ◌∙◌, inl, inr, Text, str, ◌++◌, Result-cases, ℕ}
use nordfir.Base.Io.{Io, continue, context, lift, ◌>>=◌, Keeps->>=}
use nordfir.Base.Time.{Duration}
use nordfir.Format.{FilePath}
use nordfir.Files.{FileSystem}
use nordfir.Audit.{AuditEvent}
use nordfir.Audit.LogChecks.{prepare_message, accept, all_sent}
use nordfir.Audit.Sinks.{
  Sockets, forward_line, record_datagram, request_receipt, record_receipt, receipt_timeout,
}

-- The operation does not touch what files hold.
abbrev pub LeavesFiles : {S A : Type 0} → FileSystem S → Io S A → Type 0
LeavesFiles {S} fs m = (p : FilePath) (s : S) → fs.read_to_string p (m s).1 ≡ fs.read_to_string p s

-- Documented behaviour of sockets that the program relies on: they are no regular files.
pub record HasOwnSockets {S : Type 0} (fs : FileSystem S) (sockets : Sockets S) : Type 0 where
  pub unbound_leaves : LeavesFiles fs sockets.unbound
  pub send_leaves : (d : ℕ) (t : Text) (p : FilePath) → LeavesFiles fs (sockets.send_to d t p)
  pub connect_leaves : (p : FilePath) → LeavesFiles fs (sockets.connect p)
  pub read_timeout_leaves : (d : ℕ) (t : Duration) → LeavesFiles fs (sockets.set_read_timeout d t)
  pub write_timeout_leaves : (d : ℕ) (t : Duration) → LeavesFiles fs (sockets.set_write_timeout d t)
  pub write_leaves : (d : ℕ) (t : Text) → LeavesFiles fs (sockets.write_all d t)
  pub shutdown_leaves : (d : ℕ) → LeavesFiles fs (sockets.shutdown_write d)
  pub read_leaves : (d n : ℕ) → LeavesFiles fs (sockets.read_line d n)

pub LeavesFiles->>= :
    {S A B : Type 0} (fs : FileSystem S) (m : Io S A) (k : A → Io S B)
    → LeavesFiles fs m
    → ((a : A) → LeavesFiles fs (k a))
    → LeavesFiles fs (m >>= k)
LeavesFiles->>= fs m k first rest p s =
    Keeps->>= (λ x. fs.read_to_string p x ≡ fs.read_to_string p s) m k (λ x h. first p x ∙ h)
      (λ a x h. rest a p x ∙ h) s refl

module _ {S : Type 0} (fs : FileSystem S) (sockets : Sockets S) (laws : HasOwnSockets fs sockets)
    (path : FilePath) where
  forward_line-LeavesFiles : (line : Text) → LeavesFiles fs (forward_line fs sockets path line)
  unfolding forward_line
  forward_line-LeavesFiles line =
      LeavesFiles->>= fs (context (str "create audit forwarding socket: ") sockets.unbound) _
        laws.unbound_leaves
        (λ socket.
          LeavesFiles->>= fs
            (context (str "forward audit event to " ++ path ++ str ": ")
              (sockets.send_to socket line path))
            (λ sent. lift (all_sent path line sent)) (laws.send_leaves socket line path)
            (λ sent p s. refl))

  pub record_datagram-LeavesFiles :
      (event : AuditEvent) → LeavesFiles fs (record_datagram fs sockets path event)
  unfolding record_datagram
  record_datagram-LeavesFiles event p s =
      elim (Result-cases (prepare_message fs path (str "audit forwarding") event s)) [
        | inl (line, e) ↦ rw (e, continue) (forward_line-LeavesFiles line p s)
        | inr (x, e) ↦ rw (e, continue) refl
      ]

  request_receipt-LeavesFiles :
      (line : Text) → LeavesFiles fs (request_receipt fs sockets path line)
  unfolding request_receipt
  request_receipt-LeavesFiles line =
      LeavesFiles->>= fs
        (context (str "connect to audit receipt collector " ++ path ++ str ": ")
          (sockets.connect path))
        _ (laws.connect_leaves path)
        λ stream.
          LeavesFiles->>= fs
            (context (str "configure audit receipt timeout: ")
              (sockets.set_read_timeout stream receipt_timeout))
            _ (laws.read_timeout_leaves stream receipt_timeout)
            λ _.
              LeavesFiles->>= fs
                (context (str "configure audit receipt timeout: ")
                  (sockets.set_write_timeout stream receipt_timeout))
                _ (laws.write_timeout_leaves stream receipt_timeout)
                λ _.
                  LeavesFiles->>= fs
                    (context (str "send audit event for receipt: ") (sockets.write_all stream line))
                    _ (laws.write_leaves stream line)
                    λ _.
                      LeavesFiles->>= fs
                        (context (str "finish audit event for receipt: ")
                          (sockets.shutdown_write stream))
                        _ (laws.shutdown_leaves stream)
                        λ _.
                          LeavesFiles->>= fs
                            (context (str "read audit receipt: ") (sockets.read_line stream 267))
                            (λ response. lift (accept response)) (laws.read_leaves stream 267)
                            (λ response p s. refl)

  pub record_receipt-LeavesFiles :
      (event : AuditEvent) → LeavesFiles fs (record_receipt fs sockets path event)
  unfolding record_receipt
  record_receipt-LeavesFiles event p s =
      elim (Result-cases (prepare_message fs path (str "audit receipt") event s)) [
        | inl (line, e) ↦ rw (e, continue) (request_receipt-LeavesFiles line p s)
        | inr (x, e) ↦ rw (e, continue) refl
      ]
