-- ===== src/Secrets.antt =====
-- pkg/kritis/secrets/pgpkey.go
pub mod Fetch
use kritis.Base.{String, Option, none, some, [], if◌then◌else◌, str_eq, is_empty}
use kritis.Base.Result.{Result, ok, err, errorf, wrap, panicked, map_err, ◌>>=◌}
use kritis.Metadata.{Bytes}
use kritis.Attest.{Packet, public_key, private_key, Libraries}
use kritis.Attest.Keys.{sprintf_hex}

-- `openpgp.PublicKeyType` and `openpgp.PrivateKeyType`
abbrev public_key_type : String
public_key_type = "PGP PUBLIC KEY BLOCK"

abbrev private_key_type : String
private_key_type = "PGP PRIVATE KEY BLOCK"

-- `PgpKey`: the two pointers, which may be nil. A public key is known by its fingerprint.
pub record PgpKey : Type 0 where
  pub private : Option Bytes
  pub fingerprint_of : Option Bytes

module _ (libs : Libraries) where
  -- A block of another type gives a nil packet and a nil error.
  unfoldable pub parse_key : Bytes → String → Result (Option Packet)
  parse_key key key_type = do
    block ← libs.armor_decode key
    if str_eq block.block_type key_type
        then (do packet ← libs.next_packet block.body; ok (some packet))
        else ok none

  abbrev as_public_key : Option Packet → Result Bytes
  as_public_key (some (public_key fingerprint)) = ok fingerprint
  as_public_key _ = err (errorf "Not a public key" [])

  unfoldable pub parse_public_key : Bytes → Result Bytes
  parse_public_key key = do packet ← parse_key key public_key_type; as_public_key packet

  abbrev as_private_key : Option Packet → Result Bytes
  as_private_key (some (private_key material)) = ok material
  as_private_key _ = err (errorf "Not a private Key" [])

  unfoldable pub parse_private_key : Bytes → Bytes → Result Bytes
  parse_private_key private passphrase = do
    packet ← parse_key private private_key_type
    key ← as_private_key packet
    if is_empty passphrase
        then ok key
        else map_err (wrap "Decrypt failed: %v" []) (libs.decrypt key passphrase)

  abbrev unless_empty : Bytes → Result Bytes → Result (Option Bytes)
  unless_empty text parse = if is_empty text then ok none else (do key ← parse; ok (some key))

  unfoldable pub new_pgp_key : Bytes → Bytes → Bytes → Result PgpKey
  new_pgp_key private_key_str passphrase public_key_str = do
    private ←
        map_err (wrap "parsing private key" [])
          (unless_empty private_key_str (parse_private_key private_key_str passphrase))
    fingerprint_of ←
        map_err (wrap "parsing public key" [])
          (unless_empty public_key_str (parse_public_key public_key_str))
    ok (record { private = private; fingerprint_of = fingerprint_of })

  -- `Fingerprint` dereferences the public key.
  unfoldable pub fingerprint : PgpKey → Result String
  fingerprint key = elim key.fingerprint_of [
    | none ↦ err panicked
    | some bytes ↦ ok (sprintf_hex bytes)
  ]

  unfoldable pub key_and_fingerprint : String → Result (Bytes × String)
  key_and_fingerprint public_key_data = do
    public_data ← libs.std_decode public_key_data
    s ← new_pgp_key [] [] public_data
    print ← fingerprint s
    ok (public_data, print)
