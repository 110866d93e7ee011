-- ===== src/App.antt =====
-- internal/app: the parts that the program is built from at its start.
pub mod Ip
pub mod Clients
