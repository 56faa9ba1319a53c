-- ===== src/Tests/Versions.antt =====
-- The other versions of TcpClient.
use epoll_based_fault_diagno.Base.{◌≡◌, List, [], ◌∷◌}
use mathlib.Core.Option
use epoll_based_fault_diagno.Socket.{Sent, sent, refused, eagain, other}
use epoll_based_fault_diagno.Client.NewTcp
use epoll_based_fault_diagno.Client.NewTcp.{
  without_flux, all_or_error, connect_server-without_flux, send_data-tcp_send_data,
}
use epoll_based_fault_diagno.Server.Send.{tcp_send_data}

-- Two bytes go out, and then the call would block.
abbrev partly : List Sent
partly = sent 2 ∷ refused eagain ∷ []

send_data-tcp_send_data_example :
    NewTcp.send_data partly (7 ∷ 8 ∷ 9 ∷ []) 3 other
    ≡ Option.map (all_or_error 3) (tcp_send_data partly (7 ∷ 8 ∷ 9 ∷ []) 3 other)
send_data-tcp_send_data_example = send_data-tcp_send_data partly (7 ∷ 8 ∷ 9 ∷ []) 3 other
