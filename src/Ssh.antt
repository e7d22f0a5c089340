-- ===== src/Ssh.antt =====
-- The SSH endpoint of pkg/muxtunnel.go: the host key, the addresses of a channel, and the handlers of
-- handleSSH. The SSH library, the generator of keys and the PEM encoder are parameters; a file is
-- its name's entry in a map.
use goreverselb.Base.{
  Bool, Bytes, Key, Map, Option, Result, bytes_key, codes, err, false, get, if◌then◌else◌, ltb,
  nat_key, none, ok, put, some, suc, true, ℕ, ◌++◌,
}
use goreverselb.Server.Proxy.{Proxied}
pub mod HostKey
mod Tests

-- Of golang.org/x/crypto/ssh, crypto/ed25519 and encoding/pem; `none` is an error.
pub record Library (Key Block Signer : Type 0) : Type 0 where
  pub parse_private_key : Bytes → Option Signer
  pub marshal_private_key : Key → Option Block
  pub encode_to_memory : Block → Bytes
  pub new_signer_from_key : Key → Option Signer

-- A name that has an entry can be read, or not.
pub data File : Type 0 where
  text : Bytes → File
  unreadable : File

-- WriteFile succeeds, fails before it changes the file, or fails with a part of the text written.
pub data Write : Type 0 where
  writes fails : Write
  writes_part : Bytes → Write

pub data KeyError : Type 0 where
  not_parsed not_read not_generated not_marshaled not_saved no_signer : KeyError

unfoldable pub write_file : Write → Bytes → Bytes → Map Bytes File → Bool × Map Bytes File
write_file writes filename bytes disk = (true, put filename (text bytes) disk)
write_file fails filename bytes disk = (false, disk)
write_file (writes_part part) filename bytes disk = (false, put filename (text part) disk)

module _ {Key Block Signer : Type 0} (l : Library Key Block Signer) where
  unfoldable pub parse_existing : Bytes → Result KeyError Signer
  parse_existing key_data = elim (l.parse_private_key key_data) [
    | none ↦ err not_parsed
    | some signer ↦ ok signer
  ]

  unfoldable pub signer_of : Key → Result KeyError Signer
  signer_of private_key = elim (l.new_signer_from_key private_key) [
    | none ↦ err no_signer
    | some signer ↦ ok signer
  ]

  unfoldable pub save_key :
      Write → Bytes → Key → Option Block → Map Bytes File → Result KeyError Signer × Map Bytes File
  unfolding write_file signer_of
  save_key w filename private_key none disk = (err not_marshaled, disk)
  save_key w filename private_key (some block) disk =
      let (saved, disk') = write_file w filename (l.encode_to_memory block) disk in
      (if saved then signer_of private_key else err not_saved, disk')

  unfoldable pub create_key :
      Option Key → Write → Bytes → Map Bytes File → Result KeyError Signer × Map Bytes File
  unfolding save_key
  create_key none w filename disk = (err not_generated, disk)
  create_key (some private_key) w filename disk =
      save_key w filename private_key (l.marshal_private_key private_key) disk

  -- The first argument is what GenerateKey gives.
  unfoldable pub load_or_create_ssh_key :
      Option Key → Write → Bytes → Map Bytes File → Result KeyError Signer × Map Bytes File
  unfolding create_key parse_existing
  load_or_create_ssh_key generated w filename disk = elim (get filename disk) [
    | none ↦ create_key generated w filename disk
    | some file ↦ elim file [
      | unreadable ↦ (err not_read, disk)
      | text key_data ↦ (parse_existing key_data, disk)
    ]
  ]

-- `none` is a nil address.
pub record SshAddr : Type 0 where
  pub addr : Option Bytes

abbrev pub network : SshAddr → Bytes
network a = codes "ssh_tunnel"

unfoldable pub string : SshAddr → Bytes
string a = elim a.addr [ none ↦ codes "ssh_tunnel::0:0" | some addr ↦ codes "ssh_tunnel::" ++ addr ]

-- The channel is the library's.
pub record ChannelConn : Type 0 where
  pub laddr : Option Bytes
  pub raddr : Option Bytes

abbrev pub new_channel_conn : Option Bytes → Option Bytes → ChannelConn
new_channel_conn laddr raddr = record { laddr = laddr; raddr = raddr }

abbrev pub local_addr : ChannelConn → SshAddr
local_addr c = record { addr = c.laddr }

abbrev pub remote_addr : ChannelConn → SshAddr
remote_addr c = record { addr = c.raddr }

pub record LocalForwardChannelData : Type 0 where
  pub dest_addr : Bytes
  pub dest_port : ℕ
  pub origin_addr : Bytes
  pub origin_port : ℕ

-- `doProxy` starts with the connection, whose remote address is given.
pub data Forwarded : Type 0 where
  rejected : Forwarded
  not_accepted : Forwarded
  -- The handler waits for a receiver of its error, and there is none.
  blocked : Forwarded
  forwards : ChannelConn → Forwarded

-- `sshDoneCh` has room for one error and no receiver; `in_channel` is what it holds. `tcp_addr` is
-- what net.TCPAddr makes of a host, parsed by net.ParseIP, and a port.
unfoldable pub direct_tcpip_handler :
    (Bytes → ℕ → Bytes) → Option LocalForwardChannelData → Bool → ℕ → Forwarded × ℕ
direct_tcpip_handler tcp_addr none accepts in_channel = (rejected, in_channel)
direct_tcpip_handler tcp_addr (some d) accepts in_channel =
    if accepts
    then (
      forwards (
          new_channel_conn (some (tcp_addr d.dest_addr d.dest_port))
            (some (tcp_addr d.origin_addr d.origin_port))),
      in_channel,
    )
    else if ltb in_channel 1
    then (not_accepted, suc in_channel)
    else (blocked, in_channel)

-- The PasswordHandler of handleSSH.
abbrev pub password_handler : Bytes → Bytes → Bool
password_handler user password = true
