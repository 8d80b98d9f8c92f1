-- ===== src/Server/Address.antt =====
-- tcppart/InetAddress.cc: an IPv4 address in network byte order, on a little endian machine.
use filedisk_server.Common.{ℕ, ◌+◌, ◌*◌, ◌/◌, ◌%◌, ◌^◌, ◌<◌, ◌≡◌, arith}
use filedisk_server.Common.Runs.{Text}

-- `htons` and `ntohs` swap the two bytes.
pub htons : ℕ → ℕ
htons n = (n % 256) * 256 + n / 256 % 256

pub record InetAddress : Type 0 where
  pub sin_port : ℕ
  pub s_addr : ℕ

-- `inet_addr` is of the C library.
pub inet_address : (Text → ℕ) → Text → ℕ → InetAddress
unfolding htons
inet_address inet_addr ip port = record { sin_port = htons port; s_addr = inet_addr ip }

-- `inet_ntoa` too.
pub ip_of : (ℕ → Text) → InetAddress → Text
ip_of inet_ntoa addr = inet_ntoa addr.s_addr

pub port_of : InetAddress → ℕ
unfolding htons
port_of addr = htons addr.sin_port

-- An address gives back the port that it was made with, if this has 16 bits.
port_of-inet_address :
    (inet_addr : Text → ℕ) (ip : Text) (port : ℕ)
    → port < 2 ^ 16
    → port_of (inet_address inet_addr ip port) ≡ port
unfolding port_of inet_address
port_of-inet_address inet_addr ip port h = omega arith
