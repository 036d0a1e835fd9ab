-- ===== src/Tests.antt =====
-- Runs of the definitions on small inputs, and for each result an input that it applies to.
mod Wire
mod Queue
mod Filter
mod Service
mod Dns
mod Server
mod Log
mod Files
mod Mosdns
mod Tunnel
mod Proxy
mod Links
mod Loops
mod Startup
mod Delivery
