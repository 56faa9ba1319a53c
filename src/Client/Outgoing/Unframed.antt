-- ===== src/Client/Outgoing/Unframed.antt =====
-- What send_pcm (audioclient/AudioClient.cpp) hands to the network loop
-- (audioclient/ClientManage.cpp): the caller's data, without the header that the function fills in.
use epoll_based_fault_diagno.Client.Outgoing.{Outgoing}
