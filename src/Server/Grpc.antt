-- ===== src/Server/Grpc.antt =====
-- internal/server/grpc.go: the gRPC server for health checks and debugging.
use reservation_worker.Base.{String, Option, none, some, List, [], ◌∷◌, Error, listen_failed, ℤ}

-- What is registered with a server of the gRPC library.
pub data Service : Type 0 where
  health_service : Service
  reflection_service : Service

-- What the server is asked to do, newest first.
pub data ServerCall : Type 0 where
  listen : ℤ → ServerCall
  serve : ServerCall
  graceful_stop : ServerCall

-- `serving` are the names whose health is SERVING.
pub record GrpcServer : Type 0 where
  pub port : ℤ
  pub services : List Service
  pub serving : List String
  pub calls : List ServerCall

-- NewGRPCServer
unfoldable pub new_grpc_server : ℤ → GrpcServer
new_grpc_server port = record {
  port = port;
  services = health_service ∷ reflection_service ∷ [];
  serving = "reservation-worker" ∷ [];
  calls = [];
}

abbrev pub call_server : ServerCall → GrpcServer → GrpcServer
call_server c s = record s { calls = c ∷ s.calls }

-- Start up to its wait for the end of the context. `bind` is net.Listen on a port. An error is what
-- Start returns; `none` means that it goes on.
unfoldable pub start_grpc : (ℤ → Option Error) → GrpcServer → Option Error × GrpcServer
start_grpc bind s = elim (bind s.port) [
  | some e ↦ (some (listen_failed s.port e), call_server (listen s.port) s)
  | none ↦ (none, call_server serve (call_server (listen s.port) s))
]

-- The rest of Start, after the end of the context.
abbrev pub finish_grpc : GrpcServer → Option Error × GrpcServer
finish_grpc s = (none, call_server graceful_stop s)

-- Stop
abbrev pub stop_grpc : GrpcServer → GrpcServer
stop_grpc = call_server graceful_stop
