-- ===== src/Transports.antt =====
-- transports.go, whose `transportUploader` makes an `uploader` of a client of internal/transport
-- (`Adapter`; `Clients` and `Unreadable` hold proofs on it), and internal/transport itself (`Conn`,
-- `Session` and `Auth`).
pub mod Adapter
pub mod Clients
pub mod Obliging
pub mod Uploaded
pub mod Stored
pub mod Live
pub mod Attempts
pub mod Assured
pub mod Unreadable
pub mod Refused
pub mod Abandoned
pub mod Conn
pub mod Session
pub mod Auth
pub mod Guard
pub mod Tls
pub mod Sockets
pub mod Ftp
pub mod Sftp
pub mod SftpDialed
pub mod Dialed
pub mod Real
