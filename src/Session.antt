-- ===== src/Session.antt =====
-- The command session that the two sides of a connection hold before media flow:
-- protocol/core/forward_conn.go for the server and conn_client.go for the client.
pub mod Names
pub mod Number
pub mod Action
pub mod Command
pub mod Server
pub mod Client
pub mod Agreement
