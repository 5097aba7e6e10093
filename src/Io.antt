-- ===== src/Io.antt =====
-- pkg/io: event notification.
pub mod Epoll
