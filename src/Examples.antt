-- ===== src/Examples.antt =====
-- Applications of the theorems to concrete frames, requests and states.
mod Wire
mod Messages
mod Server
mod Commands
mod Robot
mod Subjects
mod Machine
mod Plugin
mod Dummy
