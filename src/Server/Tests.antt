-- ===== src/Server/Tests.antt =====
-- The debug server on a free port and on one that is taken.
use reservation_worker.Base.{none, some, [], ◌∷◌, foreign, listen_failed, ◌≡◌, refl, pos}
use reservation_worker.Server.Grpc.{
  listen, serve, graceful_stop, new_grpc_server, start_grpc, finish_grpc, stop_grpc,
}
use reservation_worker.Server.Http.{http_addr}

served :
    let (e, s) = start_grpc (λ port. none) (new_grpc_server (pos 8041)) in
    (e ≡ none)
    × ((stop_grpc (finish_grpc s).1).calls
        ≡ graceful_stop ∷ graceful_stop ∷ serve ∷ listen (pos 8041) ∷ [])
unfolding start_grpc new_grpc_server
served = (refl, refl)

taken :
    (start_grpc (λ port. some (foreign "address already in use")) (new_grpc_server (pos 8041))).0
    ≡ some (listen_failed (pos 8041) (foreign "address already in use"))
unfolding start_grpc new_grpc_server
taken = refl

addr_test : http_addr "8040" ≡ ":8040"
addr_test = refl
