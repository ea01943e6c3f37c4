-- ===== src/Schedule/Dynamic/Network/Lost.antt =====
-- What can happen on an MPI that promises no more than the standard.
use simple_parallel.Prelude.{false, [], ◌∷◌, ◌≡◌, refl}
use simple_parallel.Prelude.Family.{put}
use simple_parallel.Schedule.Dynamic.Client.{
  Client, ClientMove, Message, server_send_val, val_gen_done,
}
use simple_parallel.Schedule.Dynamic.Server.{Server, ServerMove, Exchange}
use simple_parallel.Schedule.Dynamic.System.{System, Step}
use simple_parallel.Schedule.Dynamic.Example.{one, zero-lt, values, all_sent}
use simple_parallel.Schedule.Dynamic.Network.{Network, NetStep, NetReach, later, of_Reach}

module _ {T : Type 0} (net : Network) (x y : T) where
  abbrev NetRun : Type 0
  NetRun = (s : System T) × NetReach net 1 one (values x y) s

  abbrev client_does : (r : NetRun) {c : Client T} → ClientMove (r.0.client 0) c → NetRun
  client_does r {c} mv = (
    record (r.0) { client = put r.0.client 0 c },
    later r.1 (NetStep.own (Step.by_client 0 zero-lt mv)),
  )

  abbrev server_does : (r : NetRun) {v : Server T} → ServerMove 1 r.0.server v → NetRun
  server_does r {v} mv = (record (r.0) { server = v }, later r.1 (NetStep.own (Step.by_server mv)))

  abbrev both_do :
      (r : NetRun) {v : Server T} {c : Client T}
      → Exchange 1 0 r.0.server (r.0.client 0) v c
      → NetRun
  both_do r {v} {c} mv = (
    record { server = v; client = put r.0.client 0 c },
    later r.1 (NetStep.own (Step.exchange 0 zero-lt mv)),
  )

  -- Both values are on the way, and after them the message that there are no more.
  abbrev both_sent : NetRun
  both_sent = (_, of_Reach net 1 one (all_sent x y).1)

  abbrev told : NetRun
  told = both_do (server_does both_sent (ServerMove.all_generated refl refl)) (Exchange.tell refl)

  abbrev overtaken : net.in_order ≡ false → NetRun
  overtaken e =
      let x_message : Message T = server_send_val x in
      let r : NetRun =
        (_, later told.1 (NetStep.gen_done_overtakes y (x_message ∷ []) [] 0 e zero-lt refl)) in
      (_, later r.1 (NetStep.gen_done_overtakes x [] (server_send_val y ∷ []) 0 e zero-lt refl))

  abbrev left_early : net.in_order ≡ false → NetRun
  left_early e =
      let r = client_does (overtaken e) (ClientMove.gen_done_arrives refl) in
      let r' =
        client_does (client_does r (ClientMove.none_yet refl refl))
          (ClientMove.learn refl refl refl) in
      client_does r' (ClientMove.stop refl refl)

  abbrev all_lost : net.in_order ≡ false → NetRun
  all_lost e =
      let r =
        both_do (server_does (left_early e) (ServerMove.all_notified refl))
          (Exchange.collect refl refl) in
      server_does (server_does r (ServerMove.all_collected refl)) (ServerMove.drained refl)

  -- The generator's buffer has the second value before the first one is read from it.
  abbrev second_twice : net.copies ≡ false → NetRun
  second_twice e = (
    _,
    later told.1
        (NetStep.overwritten x y [] (server_send_val y ∷ val_gen_done ∷ []) 0 e zero-lt refl),
  )

  abbrev client_done : net.copies ≡ false → NetRun
  client_done e =
      let r =
        client_does (client_does (second_twice e) (ClientMove.value_arrives refl))
          (ClientMove.take refl refl) in
      let r' = client_does (client_does r (ClientMove.next refl)) (ClientMove.none_yet refl refl) in
      let q =
        client_does (client_does r' (ClientMove.value_arrives refl))
          (ClientMove.gen_done_arrives refl) in
      let q' =
        client_does (client_does q (ClientMove.learn refl refl refl))
          (ClientMove.take_late refl refl) in
      let q'' =
        client_does (client_does q' (ClientMove.next refl)) (ClientMove.none_yet refl refl) in
      client_does (client_does q'' (ClientMove.known refl refl)) (ClientMove.stop refl refl)

  abbrev all_done : net.copies ≡ false → NetRun
  all_done e =
      let r =
        both_do (server_does (client_done e) (ServerMove.all_notified refl))
          (Exchange.collect refl refl) in
      let r' = server_does r (ServerMove.all_collected refl) in
      let r'' = both_do (both_do r' (Exchange.drain 1 refl refl)) (Exchange.drain 0 refl refl) in
      server_does r'' (ServerMove.drained refl)
