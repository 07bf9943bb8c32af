-- ===== src/Connector.antt =====
-- The TCP connectors of cpp/jsonrpc/json-rpc-cxx/examples/conn/asiotcpconnector.hpp.
pub mod Frame
pub mod Side
pub mod Link
pub mod Phase
pub mod Calls
pub mod Runs
pub mod Answers
pub mod Liveness
pub mod Notification
pub mod Crossing
pub mod Accept
pub mod Clients
pub mod Parties
pub mod Stolen
pub mod Bounce
pub mod Echo
pub mod Examples
pub mod ClientExamples
