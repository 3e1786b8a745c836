-- ===== src/Common/TcpServer/Laws.antt =====
-- The lists of sockets of a server.
use trading_ecosystem.Prelude.{◌+◌, [], update}
use trading_ecosystem.Common.Rings.{Distinct}
use trading_ecosystem.Common.TcpServer.{TcpServer, add_socket}

-- No socket is listed twice.
pub record IsValid (s : TcpServer) : Type 0 where
  pub receive : Distinct s.receive_sockets
  pub send : Distinct s.send_sockets

accepted : TcpServer → TcpServer
accepted s = record s {
  receive_sockets = add_socket s.next_socket s.receive_sockets;
  sockets = update s.sockets s.next_socket (record { outbound_data = []; inbound_data = [] });
  next_socket = s.next_socket + 1;
}
