-- ===== src/Ssh/Tests.antt =====
-- A first start that writes the key and a second one that could write another.
use goreverselb.Base.{
  [], bytes_key, codes, false, get, nat_key, none, ok, refl, some, sym, ℕ, ◌∷◌, ◌≡◌,
}
use goreverselb.Ssh.{
  Library, writes, load_or_create_ssh_key, direct_tcpip_handler, blocked, not_accepted,
  LocalForwardChannelData, save_key, create_key, signer_of, write_file,
}
use goreverselb.Ssh.HostKey.{load_or_create_ssh_key-stable}

-- A key is a number, and its text the number.
abbrev numbers : Library ℕ ℕ ℕ
numbers = record {
  parse_private_key = λ b. elim b [ [] ↦ none | k ∷ rest ↦ some k ];
  marshal_private_key = λ k. some k;
  encode_to_memory = λ k. k ∷ [];
  new_signer_from_key = λ k. some k;
}

reads_back : (k block : ℕ) → some k ≡ some block → some block ≡ some k
reads_back k block h = sym h

first_start : (load_or_create_ssh_key numbers (some 7) writes (codes "key") []).0 ≡ ok 7
unfolding load_or_create_ssh_key create_key save_key signer_of write_file get
first_start = refl

load_or_create_ssh_key-stable_example :
    load_or_create_ssh_key numbers
      (some 8)
      writes
      (codes "key")
      (load_or_create_ssh_key numbers (some 7) writes (codes "key") []).1
    ≡ (ok 7, (load_or_create_ssh_key numbers (some 7) writes (codes "key") []).1)
load_or_create_ssh_key-stable_example =
    load_or_create_ssh_key-stable numbers (some 7) (some 8) writes writes (codes "key") 7 []
      reads_back first_start

abbrev request : LocalForwardChannelData
request = record { dest_addr = codes "db"; dest_port = 5432; origin_addr = []; origin_port = 0 }

-- The second channel that is not accepted blocks its handler.
blocks :
    ((direct_tcpip_handler (λ host port. host) (some request) false 0) ≡ (not_accepted, 1))
    × ((direct_tcpip_handler (λ host port. host) (some request) false 1) ≡ (blocked, 1))
unfolding direct_tcpip_handler
blocks = (refl, refl)
