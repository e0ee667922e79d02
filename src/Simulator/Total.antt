-- ===== src/Simulator/Total.antt =====
-- `UdpServer` on arbitrary datagrams (udp_server.go).
use snmpclient.Asn1.{Asn1}
use snmpclient.Pdu.{Pdu}
