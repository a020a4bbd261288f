-- ===== src/Tests.antt =====
-- The theorems at concrete inputs.
mod Headers
mod Messages
mod Requests
mod Bodies
mod Connections
mod Responses
mod Refused
mod Clients
mod Exchanges
mod Parts
mod Todos
mod Greetings
mod Fetching
mod Visiting
mod Ports
