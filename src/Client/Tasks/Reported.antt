-- ===== src/Client/Tasks/Reported.antt =====
-- src/endpoint.rs and src/streaks.rs, with the tasks of src/bin/client.rs: what `/health` answers while
-- connections are carried.
use Prim.Native.String.{String}
use lwd_mixnet_proxy.Health.{Health}
