-- ===== src/Server.antt =====
-- The server of audioserver/: connections, the epoll loop, receiving and sending.
pub mod Conn
pub mod Receive
pub mod Send
pub mod TaskMap
pub mod Epoll
pub mod Settings
pub mod Results
pub mod Listening
pub mod Start
pub mod Running
pub mod Worker
pub mod Status
