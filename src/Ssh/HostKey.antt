-- ===== src/Ssh/HostKey.antt =====
-- The host key over restarts: loadOrCreateSSHKey of pkg/muxtunnel.go.
use goreverselb.Base.{
  Bytes, Map, Option, Option-cases, Result, ap, arith, bytes_key, get, get-put_self, inl, inr,
  nat_key, none, ok, refl, some, ◌∙◌, ◌≡◌,
}
use goreverselb.Ssh.{
  create_key, Library, File, unreadable, text, Write, writes, fails, writes_part, KeyError,
  write_file, parse_existing, signer_of, save_key, load_or_create_ssh_key,
}

module _ {Key Block Signer : Type 0} (l : Library Key Block Signer) where
  -- The parser reads what the encoder makes of a key, as the signer of that key.
  abbrev pub ReadsBack : Type 0
  ReadsBack =
      (k : Key) (block : Block)
      → l.marshal_private_key k ≡ some block
      → l.parse_private_key (l.encode_to_memory block) ≡ l.new_signer_from_key k

  load_text :
      (generated : Option Key) (w : Write) (filename key_data : Bytes) (disk : Map Bytes File)
      → get filename disk ≡ some (text key_data)
      → load_or_create_ssh_key l generated w filename disk ≡ (parse_existing l key_data, disk)
  unfolding load_or_create_ssh_key
  load_text generated w filename key_data disk h = rw (h, load_or_create_ssh_key)

  parse_existing-signer_of :
      (k : Key) (block : Block) (signer : Signer)
      → ReadsBack
      → l.marshal_private_key k ≡ some block
      → signer_of l k ≡ ok signer
      → parse_existing l (l.encode_to_memory block) ≡ ok signer
  unfolding parse_existing signer_of
  parse_existing-signer_of k block signer r m h = elim (Option-cases (l.new_signer_from_key k)) [
    | inl e ↦ absurd (ground (arith, e, h))
    | inr (x, e) ↦ ground (arith, e, h, r k block m)
  ]

  -- What is left of a run with a signer.
  abbrev Left : Bytes → Signer → Result KeyError Signer × Map Bytes File → Type 0
  Left filename signer x =
      (key_data : Bytes) × (get filename x.1 ≡ some (text key_data))
      × (parse_existing l key_data ≡ ok signer)

  save_key-Left :
      (w : Write) (filename : Bytes) (k : Key) (signer : Signer) (o : Option Block)
      (disk : Map Bytes File)
      → ReadsBack
      → l.marshal_private_key k ≡ o
      → (save_key l w filename k o disk).0 ≡ ok signer
      → Left filename signer (save_key l w filename k o disk)
  unfolding save_key write_file
  save_key-Left w filename k signer none disk r m h = absurd (cc)
  save_key-Left writes filename k signer (some block) disk r m h = (
    l.encode_to_memory block,
    get-put_self filename (text (l.encode_to_memory block)) disk,
    parse_existing-signer_of k block signer r m h,
  )
  save_key-Left fails filename k signer (some block) disk r m h = absurd (cc)
  save_key-Left (writes_part part) filename k signer (some block) disk r m h = absurd (cc)

  create_key-Left :
      (generated : Option Key) (w : Write) (filename : Bytes) (signer : Signer)
      (disk : Map Bytes File)
      → ReadsBack
      → (create_key l generated w filename disk).0 ≡ ok signer
      → Left filename signer (create_key l generated w filename disk)
  unfolding create_key
  create_key-Left none w filename signer disk r h = absurd (cc)
  create_key-Left (some k) w filename signer disk r h =
      save_key-Left w filename k signer (l.marshal_private_key k) disk r refl h

  load-Left :
      (generated : Option Key) (w : Write) (filename : Bytes) (signer : Signer)
      (disk : Map Bytes File) (o : Option File)
      → ReadsBack
      → get filename disk ≡ o
      → (load_or_create_ssh_key l generated w filename disk).0 ≡ ok signer
      → Left filename signer (load_or_create_ssh_key l generated w filename disk)
  unfolding load_or_create_ssh_key
  load-Left generated w filename signer disk none r e h =
      let q : load_or_create_ssh_key l generated w filename disk
          ≡ create_key l generated w filename disk =
        rw (e, load_or_create_ssh_key) in
      rw q (create_key-Left generated w filename signer disk r (ground (arith, q, h)))
  load-Left generated w filename signer disk (some unreadable) r e h = absurd (ground (arith, e, h))
  load-Left generated w filename signer disk (some (text key_data)) r e h =
      let q = load_text generated w filename key_data disk e in
      rw q (key_data, e, ground (arith, q, h))

  -- Once the host key is loaded or created with a signer, a later start has the same signer and
  -- leaves the files as they are, whatever key it could generate and whether or not it could write.
  pub load_or_create_ssh_key-stable :
      (generated generated' : Option Key) (w w' : Write) (filename : Bytes) (signer : Signer)
      (disk : Map Bytes File)
      → ReadsBack
      → (load_or_create_ssh_key l generated w filename disk).0 ≡ ok signer
      → load_or_create_ssh_key l generated' w' filename
          (load_or_create_ssh_key l generated w filename disk).1
        ≡ (ok signer, (load_or_create_ssh_key l generated w filename disk).1)
  load_or_create_ssh_key-stable generated generated' w w' filename signer disk r h =
      let (key_data, there, parsed) =
        load-Left generated w filename signer disk (get filename disk) r refl h in
      load_text generated' w' filename key_data
        (load_or_create_ssh_key l generated w filename disk).1 there
      ∙ ap (λ x. (x, (load_or_create_ssh_key l generated w filename disk).1)) parsed
