-- ===== src/Tests.antt =====
-- The theorems at concrete inputs, with concrete functions in place of the parameters.
mod Given
mod Cookies
mod Keys
mod Throttles
mod Traffic
mod Saints
mod Vars
mod Messages
mod Bodies
mod Softpurges
mod Sockets
mod Copies
mod Interleavings
mod Promises
