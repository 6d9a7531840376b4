-- ===== src/Examples.antt =====
-- Concrete runs: each module applies the theorems to inputs that exercise the code.
mod Codec
mod Capture
mod Service
mod Storage
mod Upload
mod Recording
mod Agents
mod Machine
mod Enrolment
mod Shell
mod Desk
mod Shift
