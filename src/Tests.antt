-- ===== src/Tests.antt =====
-- The theorems at concrete inputs, and runs of the program on them: two clients and two subscriptions
-- in their stores, a poller with three descriptors, the messages between a client and the server, the calls on
-- the client list, the set-up of the server, and one event of it.
pub mod Lists
pub mod Watching
pub mod Network
pub mod Run
pub mod Connecting
pub mod Client
pub mod Starting
pub mod Subscribing
pub mod Registry
pub mod Serving
