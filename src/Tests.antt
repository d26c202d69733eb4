-- ===== src/Tests.antt =====
-- Runs of the code on concrete inputs, and the theorems applied to them.
mod Scheduler
mod Svc
mod Mcs
mod Codec
mod Dvc
mod Server
mod Bitmap
mod Agreement
mod Session
mod Connector
